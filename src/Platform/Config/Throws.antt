-- ===== src/Platform/Config/Throws.antt =====
-- When Config::load of native/platform/config.cpp throws.
use rats_search_tui.Base.{
  ◌≡◌, ◌↔◌, ◌⊎◌, refl, Bool, true, false, List, [], ◌∷◌, Option, none, some, Text, codes,
  Bool-cases, Option-cases, inl, inr, arith,
}
use rats_search_tui.Domain.Json.{JsonOps}
use rats_search_tui.Domain.Json.Texts.{TextOps}
use rats_search_tui.Platform.Config.{
  get_strings, names_of, read_object, read_document, parsed, load,
}

module _ (json : JsonOps) where
  open json use {Json, is_object, is_array, is_string, find, elements}

  -- A list with an element that is not a string.
  pub data HasOther : List Json → Type 0 where
    here : {v : Json} {vs : List Json} → is_string v ≡ false → HasOther (v ∷ vs)
    there : {v : Json} {vs : List Json} → HasOther vs → HasOther (v ∷ vs)

  -- A member of an object that is an array with such an element.
  abbrev pub IsMixed : Json → Text → Type 0
  IsMixed j k = (v : Json) × (find j k ≡ some v) × (is_array v ≡ true) × HasOther (elements v)

  -- A document that is an object with such a member under trackerAllow or trackerDeny.
  pub data Throws : Option Json → Type 0 where
    bad_allow : {j : Json} → is_object j ≡ true → IsMixed j (codes "trackerAllow") → Throws (some j)
    bad_deny : {j : Json} → is_object j ≡ true → IsMixed j (codes "trackerDeny") → Throws (some j)

  others_throw : (vs : List Json) → HasOther vs → get_strings json vs ≡ none
  unfolding get_strings
  others_throw [] h = elim h [ ]
  others_throw (v ∷ vs) (here e) = rw e refl
  others_throw (v ∷ vs) (there h) = ground (arith, others_throw vs h)

  throwing-HasOther : (vs : List Json) → get_strings json vs ≡ none → HasOther vs
  unfolding get_strings
  throwing-HasOther [] e = cc
  throwing-HasOther (v ∷ vs) e = elim (Bool-cases (is_string v)) [
    | inr other ↦ here other
    | inl text ↦ elim (Option-cases (get_strings json vs)) [
      | inl e' ↦ there (throwing-HasOther vs e')
      | inr (ts, e') ↦ ground arith
    ]
  ]

  mixed_throws : (j : Json) (k : Text) → IsMixed j k → names_of json (find j k) ≡ none
  unfolding names_of
  mixed_throws j k (v, f, a, h) = rw (f, names_of, a) (others_throw (elements v) h)

  throwing-IsMixed : (j : Json) (k : Text) → names_of json (find j k) ≡ none → IsMixed j k
  unfolding names_of
  throwing-IsMixed j k e = elim (Option-cases (find j k)) [
    | inl f ↦ ground arith
    | inr (v, f) ↦ elim (Bool-cases (is_array v)) [
      | inl a ↦ (v, f, a, throwing-HasOther (elements v) (ground arith))
      | inr a ↦ ground arith
    ]
  ]

  unread_object :
      (d : Bool) (j : Json)
      → read_object json d j ≡ none
      → (names_of json (find j (codes "trackerAllow")) ≡ none)
        ⊎ (names_of json (find j (codes "trackerDeny")) ≡ none)
  unfolding read_object
  unread_object d j e = elim (Option-cases (names_of json (find j (codes "trackerAllow")))) [
    | inl e' ↦ inl e'
    | inr (allow, e') ↦ elim (Option-cases (names_of json (find j (codes "trackerDeny")))) [
      | inl e'' ↦ inr e''
      | inr (deny, e'') ↦ ground arith
    ]
  ]

  throws : (d : Bool) (doc : Option Json) → Throws doc → read_document json d doc ≡ none
  unfolding read_document read_object
  throws d none t = elim t [ ]
  throws d (some j) (bad_allow o m) =
      rw (o, read_object, mixed_throws j (codes "trackerAllow") m) refl
  throws d (some j) (bad_deny o m) =
      elim (Option-cases (names_of json (find j (codes "trackerAllow")))) [
        | inl e ↦ rw (o, read_object, e) refl
        | inr (allow, e) ↦ rw (o, read_object, e, mixed_throws j (codes "trackerDeny") m) refl
      ]

  thrown : (d : Bool) (doc : Option Json) → read_document json d doc ≡ none → Throws doc
  unfolding read_document
  thrown d none e = cc
  thrown d (some j) e = elim (Bool-cases (is_object j)) [
    | inr o ↦ ground arith
    | inl o ↦ elim (unread_object d j (ground arith)) [
      | inl e' ↦ bad_allow o (throwing-IsMixed j (codes "trackerAllow") e')
      | inr e' ↦ bad_deny o (throwing-IsMixed j (codes "trackerDeny") e')
    ]
  ]

module _ (json : JsonOps) (texts : TextOps json) where
  -- load throws exactly on a file whose text parses to an object that has, under trackerAllow or
  -- under trackerDeny, an array with an element that is not a string. On every other file, one that
  -- cannot be opened or parsed included, it returns a configuration.
  pub load-Throws :
      (file_index_default : Bool) (file : Option texts.Content)
      → (load json texts file_index_default file ≡ none) ↔ Throws json (parsed json texts file)
  unfolding load
  load-Throws d file =
      (thrown json d (parsed json texts file), throws json d (parsed json texts file))
