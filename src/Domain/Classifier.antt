-- ===== src/Domain/Classifier.antt =====
-- native/domain/content_classifier.h and content_classifier.cpp: the type of a torrent by a vote of
-- its files, weighted by size, and the words that mark adult content. The tables are generated and
-- parsed at run time, so they are an argument; doubles are a parameter, and so is the order in which
-- an unordered_map is walked.
pub mod Words
pub mod Stems
pub mod Verdict
pub mod Vote
mod Tests
use rats_search_tui.Base.{
  ℕ, ℤ, pos, ◌+ℤ◌, wrap64, ltb_ℤ, Bool, true, false, not, ◌||◌, List, [], ◌∷◌, ◌++◌, Option, none,
  some, Text, codes, eq_text, to_lower, after_last, any, null, length, FloatOps, ◌==◌,
  if◌then◌else◌,
}
use rats_search_tui.Domain.Content.{
  ContentType, ContentCategory, video, pictures, archive, bad, xxx, eq_type,
  content_type_from_string,
}
use rats_search_tui.Domain.Torrent.{File, Torrent}

-- What the embedded JSON files hold.
pub record ClassifierData : Type 0 where
  pub extension_to_type : List (Text × Text)
  pub block_words : List Text
  pub very_bad_words : List Text

pub record Classification : Type 0 where
  pub type : ContentType
  pub category : ContentCategory

-- The last three are \, " and |.
abbrev pub delimiters : Text
delimiters = codes "`~!@#$%^&*()][{}.,+?/:;-_' " ++ 92 ∷ 34 ∷ 124 ∷ []

abbrev pub is_name_delimiter : ℕ → Bool
is_name_delimiter c = any (λ d. d == c) delimiters

-- The loop over the characters; `cur` is the word so far.
unfoldable pub split_loop : Text → Text → List Text
split_loop cur [] = if null cur then [] else cur ∷ []
split_loop cur (c ∷ s) =
    let rest = split_loop [] s in
    let closed = if null cur then rest else cur ∷ rest in
    let longer = split_loop (cur ++ c ∷ []) s in if is_name_delimiter c then closed else longer

unfoldable pub split_on_delimiters : Text → List Text
split_on_delimiters s = split_loop [] s

-- name.substr(name.find_last_of(c) + 1), if `c` occurs
abbrev pub behind_last : ℕ → Text → Text
behind_last c s = elim (after_last c s) [ some r ↦ r | none ↦ s ]

abbrev pub find_type : Text → List (Text × Text) → Text
find_type ext [] = []
find_type ext ((e, t) ∷ table) = if eq_text e ext then t else find_type ext table

unfoldable pub detect_file_type : ClassifierData → Text → Text
detect_file_type d path = elim (after_last b'.' (behind_last 92 (behind_last b'/' path))) [
  | none ↦ []
  | some ext ↦ if null ext then [] else find_type (to_lower ext) d.extension_to_type
]

abbrev pub has_word : List Text → Text → Bool
has_word words w = any (λ v. eq_text v w) words

-- The loop of applyBadWords: whether the type was set to bad, and the classification.
unfoldable pub apply_words : ClassifierData → List Text → Classification → Bool × Classification
apply_words d [] r = (false, r)
apply_words d (w ∷ words) r =
    let rest =
      apply_words d words (if has_word d.block_words w then record r { category = xxx } else r) in
    if has_word d.very_bad_words w then (true, record r { type = bad }) else rest

unfoldable pub apply_bad_words : ClassifierData → Text → Classification → Bool × Classification
apply_bad_words d name r = apply_words d (split_on_delimiters (to_lower name)) r

-- path.substr(0, path.find_last_of('.')), unless there is no dot or it stands first
abbrev pub before_last : ℕ → Text → Option Text
before_last c [] = none
before_last c (a ∷ s) = elim (before_last c s) [
  | some r ↦ some (a ∷ r)
  | none ↦ if a == c then some [] else none
]

unfoldable pub strip_extension : Text → Text
strip_extension path = elim (before_last b'.' path) [
  | none ↦ path
  | some r ↦ if null r then path else r
]

unfoldable pub apply_files : ClassifierData → List File → Classification → Classification
apply_files d [] r = r
apply_files d (f ∷ files) r =
    let (done, r') = apply_bad_words d (strip_extension f.path) r in
    let rest = apply_files d files r' in if done then r' else rest

unfoldable pub total_size : ℤ → List File → ℤ
total_size total [] = total
total_size total (f ∷ files) = total_size (wrap64 (total +ℤ f.size)) files

abbrev pub is_media : ContentType → Bool
is_media t = eq_type t video || eq_type t pictures || eq_type t archive

module _ (float : FloatOps) where
  open float use {Double, of_int, lit, add, div, less}

  -- priority[type] += weight
  unfoldable pub add_weight : Text → Double → List (Text × Double) → List (Text × Double)
  add_weight type weight [] = (type, add (lit 0 1) weight) ∷ []
  add_weight type weight ((t, w) ∷ m) =
      if eq_text t type then (t, add w weight) ∷ m else (t, w) ∷ add_weight type weight m

  unfoldable pub weight_of : ℤ → ℕ → File → Double
  weight_of total count f =
      if ltb_ℤ (pos 0) total
      then div (of_int f.size) (of_int total)
      else div (lit 10 1) (of_int (pos count))

  unfoldable pub tally :
      ClassifierData → ℤ → ℕ → List File → List (Text × Double) → List (Text × Double)
  tally d total count [] m = m
  tally d total count (f ∷ files) m =
      let type = detect_file_type d f.path in
      tally d total count files
        (if null type then m else add_weight type (weight_of total count f) m)

  unfoldable pub best_of : List (Text × Double) → Text × Double → Text × Double
  best_of [] best = best
  best_of ((t, w) ∷ m) best = best_of m (if less best.1 w then (t, w) else best)

module _ (float : FloatOps) (walk : List (Text × float.Double) → List (Text × float.Double)) where
  unfoldable pub detect_type_from_files : ClassifierData → List File → ContentType
  detect_type_from_files d files =
      if null files
      then ContentType.unknown
      else content_type_from_string
          (best_of float (walk (tally float d (total_size (pos 0) files) (length files) files []))
            ([], float.lit 0 1)).0

  unfoldable pub classify : ClassifierData → Text → List File → Classification
  classify d name files =
      let r : Classification = record {
        type = detect_type_from_files d files;
        category = ContentCategory.unknown;
      } in
      if not (is_media r.type)
      then r
      else let (done, r') = apply_bad_words d name r in if done then r' else apply_files d files r'

  unfoldable pub classify_torrent : {J : Type 0} → ClassifierData → Torrent J → Torrent J
  classify_torrent d t =
      let c = classify d t.name t.file_list in
      record t { content_type = c.type; content_category = c.category }
