-- ===== src/Domain/Classifier/Words.antt =====
-- The words of a name, against the cuts of the name at its delimiters.
use rats_search_tui.Base.{
  ℕ, ◌≡◌, refl, ap, true, false, List, [], ◌∷◌, ◌++◌, Text, All, null, Bool-cases, inl, inr,
  if◌then◌else◌,
}
use mathlib.Core.List.{append-nil, append_assoc}
use rats_search_tui.Domain.Classifier.{is_name_delimiter, split_loop, split_on_delimiters}

-- The text before the first delimiter, and each delimiter with the text behind it.
pub cuts : Text → Text × List (ℕ × Text)
cuts [] = ([], [])
cuts (c ∷ s) =
    let (head, rest) = cuts s in
    if is_name_delimiter c then ([], (c, head) ∷ rest) else (c ∷ head, rest)

abbrev pub IsPlain : Text → Type 0
IsPlain = All (λ c. is_name_delimiter c ≡ false)

-- The cuts put together again.
abbrev pub glue : List (ℕ × Text) → Text
glue [] = []
glue ((c, p) ∷ rest) = (c ∷ p) ++ glue rest

-- The texts between the delimiters that are not empty.
abbrev pub filled : List (ℕ × Text) → List Text
filled [] = []
filled ((c, p) ∷ rest) = if null p then filled rest else p ∷ filled rest

abbrev pub words_of : Text × List (ℕ × Text) → List Text
words_of (head, rest) = if null head then filled rest else head ∷ filled rest

pub split_loop-cuts : (s cur : Text) → split_loop cur s ≡ words_of (cur ++ (cuts s).0, (cuts s).1)
unfolding split_loop cuts
split_loop-cuts [] cur = rw append-nil
split_loop-cuts (c ∷ s) cur = elim (Bool-cases (is_name_delimiter c)) [
  | inl e ↦ rw (e, append-nil, split_loop-cuts s []) refl
  | inr e ↦ rw (e, split_loop-cuts s (cur ++ c ∷ []), append_assoc) refl
]

glue-cuts : (s : Text) → (cuts s).0 ++ glue (cuts s).1 ≡ s
unfolding cuts
glue-cuts [] = refl
glue-cuts (c ∷ s) = elim (Bool-cases (is_name_delimiter c)) [
  | inl e ↦ rw e (ap (λ (t : Text). c ∷ t) (glue-cuts s))
  | inr e ↦ rw e (ap (λ (t : Text). c ∷ t) (glue-cuts s))
]

-- A delimiter, and a text without one.
abbrev pub IsCut : ℕ × Text → Type 0
IsCut (c, p) = (is_name_delimiter c ≡ true) × IsPlain p

cuts-IsPlain : (s : Text) → IsPlain (cuts s).0 × All IsCut (cuts s).1
unfolding cuts
cuts-IsPlain [] = (tt, tt)
cuts-IsPlain (c ∷ s) = elim (Bool-cases (is_name_delimiter c)) [
  | inl e ↦ rw e (tt, ((e, (cuts-IsPlain s).0), (cuts-IsPlain s).1))
  | inr e ↦ rw e ((e, (cuts-IsPlain s).0), (cuts-IsPlain s).1)
]

-- The words of a name are the texts between its delimiters that are not empty: the name is a text
-- without delimiters and then delimiters each with such a text, and the words are those of these
-- texts that are not empty, in order.
pub split_on_delimiters_lem :
    (s : Text)
    → (head : Text) × (rest : List (ℕ × Text)) × (head ++ glue rest ≡ s)
      × IsPlain head
      × All IsCut rest
      × (split_on_delimiters s ≡ words_of (head, rest))
unfolding split_on_delimiters
split_on_delimiters_lem s = (
  (cuts s).0,
  (cuts s).1,
  glue-cuts s,
  (cuts-IsPlain s).0,
  (cuts-IsPlain s).1,
  split_loop-cuts s [],
)
