-- ===== src/Domain/Json/Arrays.antt =====
-- Arrays that are built by push_back in a loop, of the JSON library that the program takes.
use mathlib.Core.List.{append-nil, append_assoc}
use rats_search_tui.Base.{◌≡◌, ap, sym, ◌∙◌, true, List, [], ◌∷◌, ◌++◌}
use rats_search_tui.Domain.Json.{JsonOps, JsonLaws}

module _ (json : JsonOps) where
  open json use {Json, array, is_array, elements, push_back}

  unfoldable pub push_all : Json → List Json → Json
  push_all arr [] = arr
  push_all arr (v ∷ vs) = push_all (push_back arr v) vs

  module _ (laws : JsonLaws json) where
    elements-push_all :
        (vs : List Json) (arr : Json)
        → is_array arr ≡ true
        → (is_array (push_all arr vs) ≡ true) × (elements (push_all arr vs) ≡ elements arr ++ vs)
    unfolding push_all
    elements-push_all [] arr h = (h, sym (append-nil _))
    elements-push_all (v ∷ vs) arr h =
        let (is_arr, eq) = elements-push_all vs (push_back arr v) (laws.push_is_array arr v h) in
        (
          is_arr,
          eq
              ∙ ap (λ (xs : List Json). xs ++ vs) (laws.elements_push arr v h)
              ∙ append_assoc (elements arr) (v ∷ []) vs,
        )

    pub pushed :
        (vs : List Json)
        → (is_array (push_all array vs) ≡ true) × (elements (push_all array vs) ≡ vs)
    pushed vs =
        let (is_arr, eq) = elements-push_all vs array laws.array_is_array in
        (is_arr, eq ∙ ap (λ (xs : List Json). xs ++ vs) laws.elements_array)
