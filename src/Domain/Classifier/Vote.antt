-- ===== src/Domain/Classifier/Vote.antt =====
-- The vote of the files on the type of a torrent.
use rats_search_tui.Base.{
  pos, ◌≡◌, refl, sym, ◌∙◌, ◌⊎◌, false, List, [], ◌∷◌, Text, All, Any, length, Bool-cases, inl, inr,
  FloatOps, IsOrdered, if◌then◌else◌,
}
use rats_search_tui.Domain.Content.{content_type_from_string}
use rats_search_tui.Domain.Torrent.{File}
use rats_search_tui.Domain.Classifier.{
  ClassifierData, total_size, tally, best_of, detect_type_from_files,
}

module _ (float : FloatOps) (ordered : IsOrdered float) where
  open float use {Double, lit, less}

  -- No entry outweighs it.
  abbrev pub IsBest : List (Text × Double) → Text × Double → Type 0
  IsBest m best = All (λ (t, w). less best.1 w ≡ false) m

  -- The entry that the loop holds behind another one.
  abbrev heavier : Text × Double → Text × Double → Text × Double
  heavier (t, w) best = if less best.1 w then (t, w) else best

  heavier-not_less :
      (e best : Text × Double) (a : Double)
      → less best.1 a ≡ false
      → less (heavier e best).1 a ≡ false
  heavier-not_less (t, w) best a h = elim (Bool-cases (less best.1 w)) [
    | inl e ↦ rw e (ordered.trans best.1 w a e h)
    | inr e ↦ rw e h
  ]

  heavier-not_less_self : (e best : Text × Double) → less (heavier e best).1 e.1 ≡ false
  heavier-not_less_self (t, w) best = elim (Bool-cases (less best.1 w)) [
    | inl e ↦ rw e (ordered.irrefl w)
    | inr e ↦ rw e e
  ]

  heavier-cases : (e best : Text × Double) → (heavier e best ≡ best) ⊎ (heavier e best ≡ e)
  heavier-cases (t, w) best = elim (Bool-cases (less best.1 w)) [
    | inl e ↦ rw e (inr refl)
    | inr e ↦ rw e (inl refl)
  ]

  best_of-not_less :
      (m : List (Text × Double)) (best : Text × Double) (a : Double)
      → less best.1 a ≡ false
      → less (best_of float m best).1 a ≡ false
  unfolding best_of
  best_of-not_less [] best a h = h
  best_of-not_less (e ∷ m) best a h =
      best_of-not_less m (heavier e best) a (heavier-not_less e best a h)

  best_of-IsBest :
      (m : List (Text × Double)) (best : Text × Double) → IsBest m (best_of float m best)
  unfolding best_of
  best_of-IsBest [] best = tt
  best_of-IsBest (e ∷ m) best = (
    best_of-not_less m (heavier e best) e.1 (heavier-not_less_self e best),
    best_of-IsBest m (heavier e best),
  )

  best_of-from :
      (m : List (Text × Double)) (best : Text × Double)
      → (best_of float m best ≡ best) ⊎ Any (λ e. e ≡ best_of float m best) m
  unfolding best_of
  best_of-from [] best = inl refl
  best_of-from (e ∷ m) best = elim (best_of-from m (heavier e best)) [
    | inr a ↦ inr (inr a)
    | inl q ↦ elim (heavier-cases e best) [
      | inl old ↦ inl (q ∙ old)
      | inr new ↦ inr (inl (sym (q ∙ new)))
    ]
  ]

  -- A walk over an unordered_map meets each entry, and nothing else.
  pub record Walks (walk : List (Text × Double) → List (Text × Double)) : Type 1 where
    pub everything :
        (P : Text × Double → Type 0) (m : List (Text × Double)) → All P (walk m) → All P m
    pub nothing_else :
        (P : Text × Double → Type 0) (m : List (Text × Double)) → Any P (walk m) → Any P m

  -- The type of a torrent that has files is named by an entry of the table of weights that no other
  -- entry outweighs, or is the unknown type, with the weight zero that no entry exceeds; in whatever
  -- order the table is walked, and for doubles that are ordered.
  pub detect_type_lem :
      (walk : List (Text × Double) → List (Text × Double)) (walks : Walks walk) (d : ClassifierData)
      (f : File) (files : List File)
      → let m =
          tally float d (total_size (pos 0) (f ∷ files)) (length (f ∷ files)) (f ∷ files) [] in
        (best : Text × Double) × (detect_type_from_files float walk d (f ∷ files)
          ≡ content_type_from_string best.0)
        × IsBest m best
        × ((best ≡ ([], lit 0 1)) ⊎ Any (λ e. e ≡ best) m)
  unfolding detect_type_from_files
  detect_type_lem walk walks d f files =
      let m = tally float d (total_size (pos 0) (f ∷ files)) (length (f ∷ files)) (f ∷ files) [] in
      let best = best_of float (walk m) ([], lit 0 1) in
      (
        best,
        refl,
        walks.everything _ m (best_of-IsBest (walk m) ([], lit 0 1)),
        elim (best_of-from (walk m) ([], lit 0 1)) [
          | inl e ↦ inl e
          | inr a ↦ inr (walks.nothing_else _ m a)
        ],
      )
