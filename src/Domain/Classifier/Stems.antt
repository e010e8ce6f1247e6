-- ===== src/Domain/Classifier/Stems.antt =====
-- File paths without their extension, and the words of texts.
use rats_search_tui.Base.{
  ℕ, ◌==◌, ==_iff, ◌≡◌, refl, ap, false, List, [], ◌∷◌, ◌++◌, map, Option, none, some, Text, All,
  null, to_lower, Bool-cases, inl, inr, if◌then◌else◌,
}
use rats_search_tui.Domain.Torrent.{File}
use rats_search_tui.Domain.Classifier.{before_last, strip_extension}
use rats_search_tui.Domain.Classifier.Words.{cuts, words_of}

unfoldable pub words_in : List Text → List Text
words_in [] = []
words_in (s ∷ texts) = words_of (cuts (to_lower s)) ++ words_in texts

abbrev pub Lacks : ℕ → Text → Type 0
Lacks c = All (λ a. (a == c) ≡ false)

-- A path and what is left of it without its extension.
pub data IsStem (path stem : Text) : Type 0 where
  cut :
      (ext : Text)
      → path ≡ stem ++ b'.' ∷ ext
      → null stem ≡ false
      → Lacks b'.' ext
      → IsStem path stem
  no_dot : Lacks b'.' path → stem ≡ path → IsStem path stem
  dot_first : (ext : Text) → path ≡ b'.' ∷ ext → Lacks b'.' ext → stem ≡ path → IsStem path stem

pub data AreStems : List File → List Text → Type 0 where
  done : AreStems [] []
  next :
      {f : File} {files : List File} {stem : Text} {stems : List Text}
      → IsStem f.path stem
      → AreStems files stems
      → AreStems (f ∷ files) (stem ∷ stems)

-- A text cut at the last place of a character.
abbrev IsBefore : ℕ → Text → Option Text → Type 0
IsBefore c s none = Lacks c s
IsBefore c s (some r) = (ext : Text) × (s ≡ r ++ c ∷ ext) × Lacks c ext

before_last-IsBefore : (c : ℕ) (s : Text) → IsBefore c s (before_last c s)
before_last-IsBefore c [] = tt
before_last-IsBefore c (a ∷ s) = extend (before_last c s) (before_last-IsBefore c s)
  where
    extend :
        (o : Option Text)
        → IsBefore c s o
        → IsBefore c
            (a ∷ s)
            (elim o [ some r ↦ some (a ∷ r) | none ↦ if a == c then some [] else none ])
    extend (some r) (ext, e, h) = (ext, ap (λ (t : Text). a ∷ t) e, h)
    extend none h = elim (Bool-cases (a == c)) [
      | inl e ↦ rw e (s, ap (λ (b : ℕ). b ∷ s) ((==_iff a c).0 e), h)
      | inr e ↦ rw e (e, h)
    ]

strip_extension-IsStem : (path : Text) → IsStem path (strip_extension path)
unfolding strip_extension
strip_extension-IsStem path = taken (before_last b'.' path) (before_last-IsBefore b'.' path)
  where
    taken :
        (o : Option Text)
        → IsBefore b'.' path o
        → IsStem path (elim o [ none ↦ path | some r ↦ if null r then path else r ])
    taken none h = no_dot h refl
    taken (some []) (ext, e, h) = dot_first ext e h refl
    taken (some (a ∷ r)) (ext, e, h) = cut ext e refl h

pub stems_lem :
    (files : List File) → AreStems files (map (λ (f : File). strip_extension f.path) files)
stems_lem [] = done
stems_lem (f ∷ files) = next (strip_extension-IsStem f.path) (stems_lem files)
