-- ===== src/Engine/Downloads/Registry.antt =====
-- The registry of native/engine/downloads.cpp over any history of calls and polls.
use mathlib.Core.Path.{subst}
use rats_search_tui.Base.{
  ◌≡◌, refl, true, false, List, [], ◌∷◌, some, Text, to_lower, eq_text, eq_text→eq, All, Bool-cases,
  inl, inr, arith,
}
use rats_search_tui.Engine.Downloads.{
  Download, less_text, find_download, put_download, erase_download,
}

less_text_trans :
    (r s t : Text) → less_text r s ≡ true → less_text s t ≡ true → less_text r t ≡ true
unfolding less_text
less_text_trans [] [] t p q = cc p
less_text_trans [] (b ∷ s) [] p q = cc q
less_text_trans [] (b ∷ s) (c ∷ t) p q = refl
less_text_trans (a ∷ r) [] t p q = cc p
less_text_trans (a ∷ r) (b ∷ s) [] p q = cc q
less_text_trans (a ∷ r) (b ∷ s) (c ∷ t) p q = ground (arith, less_text_trans r s t)

less_text_total : (s t : Text) → eq_text s t ≡ false → less_text t s ≡ false → less_text s t ≡ true
unfolding less_text
less_text_total [] [] p q = cc p
less_text_total [] (b ∷ t) p q = refl
less_text_total (a ∷ s) [] p q = cc q
less_text_total (a ∷ s) (b ∷ t) p q = ground (arith, less_text_total s t)

module _ {D : Type 0} where
  -- The key is the lower-case hash of the download.
  abbrev pub IsKeyed : Text × Download D → Type 0
  IsKeyed (k, d) = (d.hash ≡ k) × (to_lower k ≡ k)

  abbrev pub Precedes : Text → Text × Download D → Type 0
  Precedes k e = less_text k e.0 ≡ true

  -- Each key is the lower-case hash of its download, and the keys rise.
  abbrev pub IsRegistry : List (Text × Download D) → Type 0
  IsRegistry [] = Unit
  IsRegistry (e ∷ m) = IsKeyed e × (All (Precedes e.0) m × IsRegistry m)

  all_precede :
      (h k : Text) (m : List (Text × Download D))
      → less_text h k ≡ true
      → All (Precedes k) m
      → All (Precedes h) m
  all_precede h k [] p a = tt
  all_precede h k (e ∷ m) p a = (less_text_trans h k e.0 p a.0, all_precede h k m p a.1)

  put_download-precede :
      (k h : Text) (d : Download D) (m : List (Text × Download D))
      → less_text k h ≡ true
      → All (Precedes k) m
      → All (Precedes k) (put_download h d m)
  unfolding put_download
  put_download-precede k h d [] p a = (p, tt)
  put_download-precede k h d ((j, e) ∷ m) p a = elim (Bool-cases (eq_text j h)) [
    | inl q ↦ rw q (p, a.1)
    | inr q ↦ elim (Bool-cases (less_text h j)) [
      | inl l ↦ rw (q, l) (p, (a.0, a.1))
      | inr l ↦ rw (q, l) (a.0, put_download-precede k h d m p a.1)
    ]
  ]

  pub put_download-IsRegistry :
      (h : Text) (d : Download D) (m : List (Text × Download D))
      → IsKeyed (h, d)
      → IsRegistry m
      → IsRegistry (put_download h d m)
  unfolding put_download
  put_download-IsRegistry h d [] w v = (w, (tt, tt))
  put_download-IsRegistry h d ((j, e) ∷ m) w v = elim (Bool-cases (eq_text j h)) [
    | inl q ↦ rw q (w, (subst (λ (k : Text). All (Precedes k) m) (eq_text→eq j h q) v.1.0, v.1.1))
    | inr q ↦ elim (Bool-cases (less_text h j)) [
      | inl l ↦ rw (q, l) (w, ((l, all_precede h j m l v.1.0), v))
      | inr l ↦
          rw (q, l)
            (
              v.0,
              (
                put_download-precede j h d m (less_text_total j h q l) v.1.0,
                put_download-IsRegistry h d m w v.1.1,
              ),
            )
    ]
  ]

  erase_download-precede :
      (k h : Text) (m : List (Text × Download D))
      → All (Precedes k) m
      → All (Precedes k) (erase_download h m)
  unfolding erase_download
  erase_download-precede k h [] a = tt
  erase_download-precede k h ((j, e) ∷ m) a = elim (Bool-cases (eq_text j h)) [
    | inl q ↦ rw q a.1
    | inr q ↦ rw q (a.0, erase_download-precede k h m a.1)
  ]

  pub erase_download-IsRegistry :
      (h : Text) (m : List (Text × Download D)) → IsRegistry m → IsRegistry (erase_download h m)
  unfolding erase_download
  erase_download-IsRegistry h [] v = tt
  erase_download-IsRegistry h ((k, e) ∷ m) v = elim (Bool-cases (eq_text k h)) [
    | inl q ↦ rw q v.1.1
    | inr q ↦ rw q (v.0, (erase_download-precede k h m v.1.0, erase_download-IsRegistry h m v.1.1))
  ]

  pub find_download-IsKeyed :
      (h : Text) (d : Download D) (m : List (Text × Download D))
      → IsRegistry m
      → find_download h m ≡ some d
      → IsKeyed (h, d)
  unfolding find_download
  find_download-IsKeyed h d [] v e = absurd (cc e)
  find_download-IsKeyed h d ((k, x) ∷ m) v e =
      ground (arith, find_download-IsKeyed h d m, eq_text→eq k h)
