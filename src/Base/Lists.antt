-- ===== src/Base/Lists.antt =====
-- Lists measured and indexed by native numbers, under the library's names, and Boolean quantifiers
-- that run in tests.
use Prim.Native.Nat.{ℕ, zero, suc, ◌+◌, ◌-◌, min}
use mathlib.Core.Path.{◌≡◌, refl, ap}
use mathlib.Core.Logic.{◌⊎◌, ◌↔◌}
use mathlib.Core.Bool.{Bool, true, false, ◌&&◌, ◌||◌}
use mathlib.Core.Option.{Option, none, some}
use mathlib.Core.List.{List, [], ◌∷◌, ◌++◌}
use native.Mathlib.Omega.{arith}

module _ {ℓ} {A : Type ℓ} where
  abbrev pub length : List A → ℕ
  length [] = 0
  length (x ∷ xs) = suc (length xs)

  abbrev pub take : ℕ → List A → List A
  take zero xs = []
  take (suc n) [] = []
  take (suc n) (x ∷ xs) = x ∷ take n xs

  abbrev pub drop : ℕ → List A → List A
  drop zero xs = xs
  drop (suc n) [] = []
  drop (suc n) (x ∷ xs) = drop n xs

  abbrev pub get_or : List A → ℕ → A → A
  get_or [] n d = d
  get_or (x ∷ xs) zero d = x
  get_or (x ∷ xs) (suc n) d = get_or xs n d

  abbrev pub null : List A → Bool
  null [] = true
  null (x ∷ xs) = false

  abbrev pub any : (A → Bool) → List A → Bool
  any p [] = false
  any p (x ∷ xs) = p x || any p xs

  abbrev pub all : (A → Bool) → List A → Bool
  all p [] = true
  all p (x ∷ xs) = p x && all p xs

  abbrev pub All {κ} : (A → Type κ) → List A → Type κ
  All P [] = Unit
  All P (x ∷ xs) = P x × All P xs

  abbrev pub Any : (A → Type 0) → List A → Type 0
  Any P [] = ⊥
  Any P (x ∷ xs) = P x ⊎ Any P xs

  pub length-append : (xs ys : List A) → length (xs ++ ys) ≡ length xs + length ys
  length-append [] ys = omega arith
  length-append (x ∷ xs) ys = omega (arith, length-append xs ys)

module _ {ℓ} {A : Type ℓ} where
  pub length_snoc : (xs : List A) (x : A) → length (xs ++ x ∷ []) ≡ suc (length xs)
  length_snoc xs x = omega (arith, length-append xs (x ∷ []))

  pub length-take : (n : ℕ) (xs : List A) → length (take n xs) ≡ min n (length xs)
  length-take zero xs = omega arith
  length-take (suc n) [] = omega arith
  length-take (suc n) (x ∷ xs) = omega (arith, length-take n xs)

  pub length-drop : (n : ℕ) (xs : List A) → length (drop n xs) ≡ length xs - n
  length-drop zero xs = omega arith
  length-drop (suc n) [] = omega arith
  length-drop (suc n) (x ∷ xs) = omega (arith, length-drop n xs)

  pub drop-length : (xs ys : List A) → drop (length xs) (xs ++ ys) ≡ ys
  drop-length [] ys = refl
  drop-length (x ∷ xs) ys = drop-length xs ys

  pub drop_all : (xs : List A) → drop (length xs) xs ≡ []
  drop_all [] = refl
  drop_all (x ∷ xs) = drop_all xs

  pub All-append {κ} : (P : A → Type κ) (xs ys : List A) → All P xs → All P ys → All P (xs ++ ys)
  All-append P [] ys hx hy = hy
  All-append P (x ∷ xs) ys hx hy = (hx.0, All-append P xs ys hx.1 hy)

  pub All-split {κ} : (P : A → Type κ) (xs ys : List A) → All P (xs ++ ys) → All P xs × All P ys
  All-split P [] ys h = (tt, h)
  All-split P (x ∷ xs) ys h = let (hx, hy) = All-split P xs ys h.1 in ((h.0, hx), hy)

  pub All-every {κ} : (P : A → Type κ) (xs : List A) → ((x : A) → P x) → All P xs
  All-every P [] f = tt
  All-every P (x ∷ xs) f = (f x, All-every P xs f)

  -- The Boolean quantifiers decide the others, where the test decides the predicate.
  pub any_iff :
      (P : A → Type 0) (p : A → Bool)
      → ((x : A) → (p x ≡ true) ↔ P x)
      → (xs : List A) → (any p xs ≡ true) ↔ Any P xs
  any_iff P p h [] = (λ e. cc, λ e. absurd e)
  any_iff P p h (x ∷ xs) = ground (arith, h x, any_iff P p h xs)

  pub not_any_iff {κ} :
      (P : A → Type κ) (p : A → Bool)
      → ((x : A) → (p x ≡ false) ↔ P x)
      → (xs : List A) → (any p xs ≡ false) ↔ All P xs
  not_any_iff P p h [] = (λ e. tt, λ e. refl)
  not_any_iff P p h (x ∷ xs) = ground (arith, h x, not_any_iff P p h xs)

module _ {ℓ} {A : Type ℓ} where
  abbrev pub keep : A → Option (A × List A) → Option (A × List A)
  keep x none = none
  keep x (some (y, ys)) = some (y, x ∷ ys)

  -- The element at a position, and the list without it.
  abbrev pub pick : ℕ → List A → Option (A × List A)
  pick i [] = none
  pick zero (x ∷ xs) = some (x, xs)
  pick (suc i) (x ∷ xs) = keep x (pick i xs)

  -- What was picked from a list of that length leaves one element less.
  abbrev pub Shortens : ℕ → Option (A × List A) → Type 0
  Shortens n none = Unit
  Shortens n (some (y, ys)) = n ≡ suc (length ys)

  keep-Shortens :
      (x : A) (n : ℕ) (r : Option (A × List A)) → Shortens n r → Shortens (suc n) (keep x r)
  keep-Shortens x n none h = tt
  keep-Shortens x n (some (y, ys)) h = ap suc h

  pub pick-Shortens : (i : ℕ) (xs : List A) → Shortens (length xs) (pick i xs)
  pick-Shortens i [] = tt
  pick-Shortens zero (x ∷ xs) = refl
  pick-Shortens (suc i) (x ∷ xs) = keep-Shortens x (length xs) (pick i xs) (pick-Shortens i xs)

-- A function such as std::sort permutes: it keeps the number of elements, and what holds of each.
pub record Permutes {A : Type 0} (sort : List A → List A) : Type 1 where
  pub lengths : (xs : List A) → length (sort xs) ≡ length xs
  pub members : (P : A → Type 0) (xs : List A) → All P xs → All P (sort xs)
