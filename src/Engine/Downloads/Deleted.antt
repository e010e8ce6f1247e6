-- ===== src/Engine/Downloads/Deleted.antt =====
-- What native/engine/downloads.cpp removes with a download.
use rats_search_tui.Base.{
  ℕ, zero, suc, ◌≤◌, ◌<◌, ◌≡◌, refl, ◌⊎◌, inl, inr, ap, Bool, true, false, not, ◌&&◌, List, [], ◌∷◌,
  ◌++◌, map, Text, All, All-append, Permutes, is_prefix, drop_while_end, length, length-append,
  null, if_intro, Bool-cases, arith, if◌then◌else◌,
}
use rats_search_tui.Engine.Downloads.{DownloadFile, Download}
use rats_search_tui.Engine.Downloads.Deletion.{
  is_slash, is_absolute, ends_in_slash, append_path, parent_path, under_save_path, parents_loop,
  parents_of, unique, unique_after, removed_files, noted_dirs, delete_download_files,
}

dropped_cases :
    (p : ℕ → Bool) (s : Text) → (drop_while_end p s ≡ s) ⊎ (length (drop_while_end p s) < length s)
dropped_cases p [] = inl refl
dropped_cases p (a ∷ s) = ground (arith, dropped_cases p s)

cons-dropped :
    (p : ℕ → Bool) (a : ℕ) (r : Text)
    → length (if p a && null r then [] else a ∷ r) ≤ suc (length r)
cons-dropped p a r = ground arith

dropped-le : (p : ℕ → Bool) (s : Text) → length (drop_while_end p s) ≤ length s
dropped-le p s = elim (dropped_cases p s) [
  | inl e ↦ omega (arith, ap length e)
  | inr lt ↦ omega (arith, lt)
]

under-lt : (base p : Text) → null base ≡ false → under_save_path base p ≡ true → 1 < length p
unfolding under_save_path
under-lt [] p b e = cc
under-lt (a ∷ base) p b e = ground arith

-- A text that is not empty ends in a slash or in another byte.
one_drops :
    (a : ℕ) (s : Text)
    → (length (drop_while_end is_slash (a ∷ s)) < suc (length s))
      ⊎ (length (drop_while_end (λ c. not (is_slash c)) (a ∷ s)) < suc (length s))
one_drops a [] = ground arith
one_drops a (b ∷ s) = elim (one_drops b s) [
  | inl h ↦ inl (omega (arith, cons-dropped is_slash a (drop_while_end is_slash (b ∷ s)), h))
  | inr h ↦ inr (
      omega (
        arith,
        cons-dropped (λ c. not (is_slash c)) a (drop_while_end (λ c. not (is_slash c)) (b ∷ s)),
        h,
      ))
]

-- The text without its last name and the slashes before it is shorter.
both_drop :
    (a : ℕ) (s : Text)
    → length (drop_while_end is_slash (drop_while_end (λ c. not (is_slash c)) (a ∷ s)))
      < suc (length s)
both_drop a s =
    let q = drop_while_end (λ c. not (is_slash c)) (a ∷ s) in
    elim (dropped_cases (λ c. not (is_slash c)) (a ∷ s)) [
      | inr lt ↦ omega (arith, lt, dropped-le is_slash q)
      | inl e ↦ elim (one_drops a s) [
        | inl lt ↦ omega (arith, ap (λ (t : Text). length (drop_while_end is_slash t)) e, lt)
        | inr lt ↦ absurd (omega (arith, ap length e, lt))
      ]
    ]

parent_path-lt : (p : Text) → 1 < length p → length (parent_path p) < length p
unfolding parent_path
parent_path-lt [] h = absurd (omega arith)
parent_path-lt (a ∷ s) h =
    let r = drop_while_end is_slash (drop_while_end (λ c. not (is_slash c)) (a ∷ s)) in
    if_intro (λ (t : Text). length t < suc (length s)) (null r && is_absolute (a ∷ s)) (omega arith)
      (both_drop a s)

-- With a save path that is not empty, more fuel than the length of a path changes nothing.
parents_loop-enough :
    (fuel : ℕ) (base p : Text)
    → null base ≡ false
    → length p < fuel
    → parents_loop (suc fuel) base p ≡ parents_loop fuel base p
unfolding parents_loop
parents_loop-enough zero base p b h = absurd (omega arith)
parents_loop-enough (suc fuel) base p b h = elim (Bool-cases (under_save_path base p)) [
  | inr e ↦ rw e refl
  | inl e ↦ rw e (
      ap (λ (ps : List Text). p ∷ ps)
        (parents_loop-enough fuel base (parent_path p) b
          (omega (arith, parent_path-lt p (under-lt base p b e), under-lt base p b e))))
]

prefix_append : (s t : Text) → is_prefix s (s ++ t) ≡ true
prefix_append [] t = refl
prefix_append (a ∷ s) t = ground (arith, prefix_append s t)

under-append : (base t : Text) → under_save_path base (base ++ b'/' ∷ t) ≡ true
unfolding under_save_path
under-append base t = ground (arith, prefix_append base (b'/' ∷ t), length-append base (b'/' ∷ t))

-- The directories above a path, the nearest first.
abbrev pub climb : ℕ → Text → Text
climb zero p = parent_path p
climb (suc n) p = parent_path (climb n p)

All-map : {P Q : Text → Type 0} (f : (t : Text) → P t → Q t) (ts : List Text) → All P ts → All Q ts
All-map f [] h = tt
All-map f (t ∷ ts) h = (f t h.0, All-map f ts h.1)

All-unique_after :
    (P : Text → Type 0) (same : Text → Text → Bool) (d : Text) (ds : List Text)
    → All P ds
    → All P (unique_after same d ds)
unfolding unique_after
All-unique_after P same d [] h = tt
All-unique_after P same d (e ∷ es) h =
    let rest = All-unique_after P same (if same d e then d else e) es h.1 in
    if_intro (All P) (same d e) rest (h.0, rest)

All-unique :
    (P : Text → Type 0) (same : Text → Text → Bool) (ds : List Text)
    → All P ds
    → All P (unique same ds)
unfolding unique
All-unique P same [] h = tt
All-unique P same (d ∷ ds) h = (h.0, All-unique_after P same d ds h.1)

-- A directory above one of the files, with more to its path than the save path.
abbrev pub IsDirOf : {D : Type 0} → Text → List (DownloadFile D) → Text → Type 0
IsDirOf base [] d = ⊥
IsDirOf base (f ∷ fs) d =
    ((under_save_path base d ≡ true) × ((n : ℕ) × (d ≡ climb n (base ++ b'/' ∷ f.path))))
    ⊎ IsDirOf base fs d

module _ (base : Text) where
  parents_loop-All :
      (fuel n : ℕ) (full : Text)
      → All
          (λ d. (under_save_path base d ≡ true) × ((k : ℕ) × (d ≡ climb k full)))
          (parents_loop fuel base (climb n full))
  unfolding parents_loop
  parents_loop-All zero n full = tt
  parents_loop-All (suc fuel) n full = elim (Bool-cases (under_save_path base (climb n full))) [
    | inr e ↦ rw e tt
    | inl e ↦ rw e ((e, (n, refl)), parents_loop-All fuel (suc n) full)
  ]

append-relative :
    (base p : Text)
    → null base ≡ false
    → ends_in_slash base ≡ false
    → is_absolute p ≡ false
    → append_path base p ≡ base ++ b'/' ∷ p
unfolding append_path
append-relative base p rooted open_end h = rw (h, rooted, open_end) refl

module _ {D : Type 0} (base : Text) (rooted : null base ≡ false)
    (open_end : ends_in_slash base ≡ false) where
  removed_files-relative :
      (fs : List (DownloadFile D))
      → All (λ f. is_absolute f.path ≡ false) fs
      → removed_files base fs ≡ map (λ f. base ++ b'/' ∷ f.path) fs
  unfolding removed_files
  removed_files-relative [] h = refl
  removed_files-relative (f ∷ fs) h =
      rw (append-relative base f.path rooted open_end h.0, under-append base f.path)
        (ap (λ (ps : List Text). (base ++ b'/' ∷ f.path) ∷ ps) (removed_files-relative fs h.1))

  noted_dirs-All :
      (fs : List (DownloadFile D))
      → All (λ f. is_absolute f.path ≡ false) fs
      → All (IsDirOf base fs) (noted_dirs base fs)
  unfolding noted_dirs parents_of
  noted_dirs-All [] h = tt
  noted_dirs-All (f ∷ fs) h =
      let full = base ++ b'/' ∷ f.path in
      rw (append-relative base f.path rooted open_end h.0, under-append base f.path)
        (All-append (IsDirOf base (f ∷ fs))
          (parents_loop (suc (length full)) base (parent_path full)) (noted_dirs base fs)
          (All-map (λ d p. inl p) _ (parents_loop-All base (suc (length full)) 0 full))
          (All-map (λ d p. inr p) _ (noted_dirs-All fs h.1)))

-- A download whose save path is not empty and does not end in a slash, and whose files all have
-- relative paths, is deleted by removing first each of its files at the save path, in order, and
-- whatever the path of the file is, `..` components included; and then only directories above these
-- files, whose paths are longer than the save path and begin with it.
pub deleted_lem :
    {D : Type 0} (sort : List Text → List Text) (same : Text → Text → Bool) (d : Download D)
    → Permutes sort
    → null d.save_path ≡ false
    → ends_in_slash d.save_path ≡ false
    → All (λ f. is_absolute f.path ≡ false) d.files
    → (dirs : List Text) × (delete_download_files sort same d
        ≡ map (λ f. d.save_path ++ b'/' ∷ f.path) d.files ++ dirs)
      × All (IsDirOf d.save_path d.files) dirs
unfolding delete_download_files
deleted_lem sort same d perm rooted open_end h = (
  unique same (sort (noted_dirs d.save_path d.files)),
  rw (rooted, removed_files-relative d.save_path rooted open_end d.files h) refl,
  All-unique (IsDirOf d.save_path d.files) same (sort (noted_dirs d.save_path d.files)) (
      perm.members (IsDirOf d.save_path d.files) (noted_dirs d.save_path d.files)
        (noted_dirs-All d.save_path rooted open_end d.files h)),
)
