-- ===== src/Index/Groonga/Grouped.antt =====
-- The hits of the file search in native/index/groonga_index.cpp have the paths that were found for them.
use mathlib.Core.List.{append-nil, append_assoc}
use mathlib.Core.Option
use rats_search_tui.Base.{
  ◌≡◌, refl, ap, sym, ◌∙◌, inl, inr, Bool, true, false, not, Bool-cases, List, [], ◌∷◌, ◌++◌, map,
  Option, none, some, Text, eq_text, eq_text→eq, eq_text_refl, find_key, null, if_intro, All,
  Permutes, FloatOps, arith, if◌then◌else◌,
}
use rats_search_tui.Domain.Json.{JsonOps}
use rats_search_tui.Domain.Torrent.{Torrent, SearchHit}
use rats_search_tui.Index.{SearchQuery}
use rats_search_tui.Index.Groonga.Client.{GroongaOps, send}
use rats_search_tui.Index.Groonga.Query.{files_args, from_files}
use rats_search_tui.Index.Groonga.Rows.{parse_select_rows}
use rats_search_tui.Index.Groonga.Files.{
  add_match, add_matches, HitSort, hit_with, file_hit, sort_hits, search_parents, search_files,
  found_in_reply,
}

-- The paths of the rows with a hash, in their order.
abbrev pub paths_of : Text → List (Text × Text) → List Text
paths_of hash [] = []
paths_of hash ((h, path) ∷ rows) =
    let rest = paths_of hash rows in if eq_text h hash then path ∷ rest else rest

-- What an entry becomes when paths are added.
abbrev extend : Option (List Text) → List Text → Option (List Text)
extend none [] = none
extend none (p ∷ ps) = some (p ∷ ps)
extend (some qs) ps = some (qs ++ ps)

-- No hash has two entries.
abbrev Distinct : List (Text × List Text) → Type 0
Distinct [] = Unit
Distinct ((h, paths) ∷ rest) = (find_key h rest ≡ none) × Distinct rest

find-add_match :
    (hash path j : Text) (m : List (Text × List Text))
    → find_key j (add_match hash path m)
      ≡ (if eq_text hash j then extend (find_key j m) (path ∷ []) else find_key j m)
unfolding find_key add_match
find-add_match hash path j [] = refl
find-add_match hash path j ((h, paths) ∷ rest) = ground (
  arith,
  eq_text→eq h hash,
  eq_text→eq h j,
  eq_text→eq hash j,
  eq_text_refl h,
  find-add_match hash path j rest,
)

add_match-Distinct :
    (hash path : Text) (m : List (Text × List Text)) → Distinct m → Distinct (add_match hash path m)
unfolding add_match
add_match-Distinct hash path [] h = (unfold find_key in refl, tt)
add_match-Distinct hash path ((k, paths) ∷ rest) h = elim (Bool-cases (eq_text k hash)) [
  | inl e ↦ rw e h
  | inr e ↦ rw e (
    find-add_match hash path k rest ∙ rw (not_sym k hash e) h.0,
    add_match-Distinct hash path rest h.1,
  )
]
  where
    not_sym : (s t : Text) → eq_text s t ≡ false → eq_text t s ≡ false
    not_sym s t e = ground (arith, eq_text→eq t s, eq_text_refl s, eq_text_refl t)

extend-extend :
    (o : Option (List Text)) (p : Text) (ps : List Text)
    → extend (extend o (p ∷ [])) ps ≡ extend o (p ∷ ps)
extend-extend none p ps = refl
extend-extend (some qs) p ps = ap some (append_assoc qs (p ∷ []) ps)

extend-nil : (o : Option (List Text)) → extend o [] ≡ o
extend-nil none = refl
extend-nil (some qs) = ap some (append-nil qs)

extend_if :
    (b : Bool) (o : Option (List Text)) (p : Text) (ps : List Text)
    → extend (if b then extend o (p ∷ []) else o) ps ≡ extend o (if b then p ∷ ps else ps)
extend_if true o p ps = extend-extend o p ps
extend_if false o p ps = refl

find-add_matches :
    (rows : List (Text × Text)) (j : Text) (m : List (Text × List Text))
    → find_key j (add_matches rows m) ≡ extend (find_key j m) (paths_of j rows)
unfolding add_matches
find-add_matches [] j m = sym (extend-nil (find_key j m))
find-add_matches ((hash, path) ∷ rows) j m =
    find-add_matches rows j (add_match hash path m)
    ∙ ap (λ o. extend o (paths_of j rows)) (find-add_match hash path j m)
    ∙ extend_if (eq_text hash j) (find_key j m) path (paths_of j rows)

add_matches-Distinct :
    (rows : List (Text × Text)) (m : List (Text × List Text))
    → Distinct m
    → Distinct (add_matches rows m)
unfolding add_matches
add_matches-Distinct [] m h = h
add_matches-Distinct ((hash, path) ∷ rows) m h =
    add_matches-Distinct rows (add_match hash path m) (add_match-Distinct hash path m h)

-- The rows of a reply are grouped: no hash has two entries, and one that occurs has the paths of its
-- rows, in their order.
pub grouped_lem :
    (rows : List (Text × Text))
    → Distinct (add_matches rows [])
      × ((j : Text) → find_key j (add_matches rows []) ≡ extend none (paths_of j rows))
grouped_lem rows =
    (add_matches-Distinct rows [] tt, λ j. find-add_matches rows j [] ∙ (unfold find_key in refl))

module _ (json : JsonOps) (float : FloatOps) (groonga : GroongaOps json float) where
  open json use {Json}
  open groonga use {State}

  -- A hit of the file search with the paths of its hash.
  abbrev pub Matches : List (Text × Text) → SearchHit Json → Type 0
  Matches pairs hit =
      (hit.from_file_match ≡ true) × (hit.matching_paths ≡ paths_of hit.torrent.hash pairs)

  abbrev pub EachHit : (SearchHit Json → Type 0) → Option (List (SearchHit Json)) → Type 0
  EachHit P none = Unit
  EachHit P (some hits) = All P hits

  hit_with-Matches :
      (pairs : List (Text × Text)) (t : Torrent Json) (ps : List Text)
      → ps ≡ paths_of t.hash pairs
      → Matches pairs (hit_with json float groonga (extend none ps) t)
  hit_with-Matches pairs t [] e = (refl, e)
  hit_with-Matches pairs t (p ∷ ps) e = (refl, e)

  file_hit-Matches :
      (pairs : List (Text × Text)) (t : Torrent Json)
      → Matches pairs (file_hit json float groonga (add_matches pairs []) t)
  unfolding file_hit
  file_hit-Matches pairs t =
      rw ((grouped_lem pairs).1 t.hash) (hit_with-Matches pairs t (paths_of t.hash pairs) refl)

  file_hits-Matches :
      (pairs : List (Text × Text)) (ts : List (Torrent Json))
      → All (Matches pairs) (map (file_hit json float groonga (add_matches pairs [])) ts)
  file_hits-Matches pairs [] = tt
  file_hits-Matches pairs (t ∷ ts) = (file_hit-Matches pairs t, file_hits-Matches pairs ts)

  EachHit-map :
      {A : Type 0} (P : SearchHit Json → Type 0) (f : A → List (SearchHit Json)) (o : Option A)
      → ((a : A) → All P (f a))
      → EachHit P (Option.map f o)
  EachHit-map P f none h = tt
  EachHit-map P f (some a) h = h a

  module _ (stable_sort : HitSort Json) (sorts : (p : _) → Permutes (stable_sort p)) where
    sort_hits-All :
        (P : SearchHit Json → Type 0) (q : SearchQuery) (hits : List (SearchHit Json))
        → All P hits
        → All P (sort_hits json float groonga stable_sort q hits)
    unfolding sort_hits
    sort_hits-All P q hits h = if_intro (All P) _ ((sorts _).members P hits h) h

    search_parents-Matches :
        (pairs : List (Text × Text)) (q : SearchQuery) (s : State)
        → EachHit
            (Matches pairs)
            (search_parents json float groonga stable_sort q (add_matches pairs []) s).0
    unfolding search_parents
    search_parents-Matches pairs q s =
        if_intro (λ (r : Option (List (SearchHit Json)) × State). EachHit (Matches pairs) r.0)
          (null (add_matches pairs [])) tt
          (EachHit-map (Matches pairs) _ (parse_select_rows json float groonga _)
            (λ ts. sort_hits-All (Matches pairs) q _ (file_hits-Matches pairs ts)))

    -- Each hit of a search for files is marked as one, and it shows the paths that the reply to the
    -- search had for its hash, all of them and in that order. Where the sort permutes, and the reply
    -- can be read.
    pub search_files-Matches :
        (file_index : Bool) (q : SearchQuery) (s : State) (pairs : List (Text × Text))
        → found_in_reply json float groonga
            (send json float groonga (from_files (files_args q)) s).0
          ≡ some pairs
        → EachHit (Matches pairs) (search_files json float groonga stable_sort file_index q s).0
    unfolding search_files
    search_files-Matches file_index q s pairs e =
        if_intro (λ (r : Option (List (SearchHit Json)) × State). EachHit (Matches pairs) r.0)
          (null q.text) tt
          (if_intro (λ (r : Option (List (SearchHit Json)) × State). EachHit (Matches pairs) r.0)
            (not file_index) tt (rw e (search_parents-Matches pairs q _)))
