-- ===== src/Domain/Filter/Csv.antt =====
-- splitCsv of native/domain/filter_policy.cpp against the split of a text at every comma.
use rats_search_tui.Base.{
  ℕ, zero, suc, ◌<◌, ◌≡◌, refl, List, [], ◌∷◌, ◌++◌, none, some, Text, All, before_after,
  Bool-cases, Option-cases, inl, inr, length, null, arith, ◌==◌, ◌≢◌, if◌then◌else◌,
}
use rats_search_tui.Domain.Filter.{split_csv, split_csv_loop}

abbrev prepend : ℕ → List Text → List Text
prepend a [] = (a ∷ []) ∷ []
prepend a (p ∷ ps) = (a ∷ p) ∷ ps

-- All pieces between the separators, the empty ones too.
pub split_on : ℕ → Text → List Text
split_on c [] = [] ∷ []
split_on c (a ∷ s) = let rest = split_on c s in if a == c then [] ∷ rest else prepend a rest

-- The pieces with the separator between them.
pub join : ℕ → List Text → Text
join c [] = []
join c (p ∷ []) = p
join c (p ∷ q ∷ ps) = p ++ c ∷ join c (q ∷ ps)

pub non_empty : List Text → List Text
non_empty [] = []
non_empty (p ∷ ps) = if null p then non_empty ps else p ∷ non_empty ps

split_on-before_after :
    (c : ℕ) (s : Text)
    → split_on c s
      ≡ (before_after c s).0 ∷ (elim (before_after c s).1 [ none ↦ [] | some r ↦ split_on c r ])
unfolding split_on
split_on-before_after c [] = refl
split_on-before_after c (a ∷ s) = ground (arith, split_on-before_after c s)

before_after-lt : (c : ℕ) (s r : Text) → (before_after c s).1 ≡ some r → length r < length s
before_after-lt c [] r h = cc
before_after-lt c (a ∷ s) r h = ground (arith, before_after-lt c s r)

loop-eq-split_on :
    (f : ℕ) (s : Text) → length s < f → split_csv_loop f s ≡ non_empty (split_on b',' s)
unfolding split_csv_loop non_empty
loop-eq-split_on zero s h = elim h [ ]
loop-eq-split_on (suc f) s h = elim (Option-cases (before_after b',' s).1) [
  | inl e ↦ rw (split_on-before_after b',' s, e)
  | inr (r, e) ↦
      rw (split_on-before_after b',' s, e)
        (ground (arith, before_after-lt b',' s r e, loop-eq-split_on f r))
]

join-prepend : (c a : ℕ) (ps : List Text) → join c (prepend a ps) ≡ a ∷ join c ps
unfolding join
join-prepend c a [] = refl
join-prepend c a (p ∷ []) = refl
join-prepend c a (p ∷ q ∷ ps) = refl

join-split_on_cons : (c : ℕ) (s : Text) → join c ([] ∷ split_on c s) ≡ c ∷ join c (split_on c s)
unfolding join
join-split_on_cons c s = rw split_on-before_after refl

join-split_on : (c : ℕ) (s : Text) → join c (split_on c s) ≡ s
unfolding split_on
join-split_on c [] = unfold join in refl
join-split_on c (a ∷ s) =
    ground (arith, join-split_on c s, join-split_on_cons c s, join-prepend c a (split_on c s))

prepend-free :
    (c a : ℕ) (ps : List Text)
    → a ≢ c
    → All (All (λ b. b ≢ c)) ps
    → All (All (λ b. b ≢ c)) (prepend a ps)
prepend-free c a [] h k = ((h, tt), tt)
prepend-free c a (p ∷ ps) h k = ((h, k.0), k.1)

split_on-free : (c : ℕ) (s : Text) → All (All (λ a. a ≢ c)) (split_on c s)
unfolding split_on
split_on-free c [] = (tt, tt)
split_on-free c (a ∷ s) = elim (Bool-cases (a == c)) [
  | inl same ↦ rw same (tt, split_on-free c s)
  | inr other ↦ rw other (prepend-free c a (split_on c s) (λ e. ground arith) (split_on-free c s))
]

-- The tokens of a filter are the pieces that are not empty of the one way to cut it at its commas:
-- there are pieces without a comma that give the filter when joined by commas, and splitCsv
-- returns those that are not empty, in order.
pub split_csv_lem :
    (s : Text)
    → (pieces : List Text) × (join b',' pieces ≡ s)
      × All (All (λ a. a ≢ b',')) pieces
      × (split_csv s ≡ non_empty pieces)
unfolding split_csv
split_csv_lem s = (
  split_on b',' s,
  join-split_on b',' s,
  split_on-free b',' s,
  loop-eq-split_on (suc (length s)) s (omega arith),
)
