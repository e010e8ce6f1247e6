-- ===== src/Domain/Classifier/Verdict.antt =====
-- What the word lists make of a torrent, against the words of its name and its file paths.
use rats_search_tui.Base.{
  ◌≡◌, refl, ◌∙◌, ap, Bool, List, [], ◌∷◌, ◌++◌, Text, any, map, to_lower, Bool-cases, inl, inr,
  arith, FloatOps, if◌then◌else◌,
}
use rats_search_tui.Domain.Content.{ContentCategory, bad, xxx}
use rats_search_tui.Domain.Torrent.{File}
use rats_search_tui.Domain.Classifier.{
  ClassifierData, Classification, split_loop, split_on_delimiters, has_word, apply_words,
  apply_bad_words, strip_extension, apply_files, is_media, detect_type_from_files, classify,
}
use rats_search_tui.Domain.Classifier.Words.{split_loop-cuts}
use rats_search_tui.Domain.Classifier.Stems.{AreStems, stems_lem, words_in}

-- The words in front of the first one in the list, or all of them.
pub words_before : List Text → List Text → List Text
words_before list [] = []
words_before list (w ∷ words) =
    let rest = words_before list words in if has_word list w then [] else w ∷ rest

-- What apply_files takes of the files.
path_words : List File → List Text
path_words [] = []
path_words (f ∷ files) = split_on_delimiters (to_lower (strip_extension f.path)) ++ path_words files

-- A word of the first list makes a torrent bad; a word of the other one before it, or anywhere if
-- there is none, puts it in the category.
abbrev pub verdict : ClassifierData → List Text → Classification → Classification
verdict d words r = record {
  type = if any (has_word d.very_bad_words) words then bad else r.type;
  category =
      if any (has_word d.block_words) (words_before d.very_bad_words words)
      then xxx
      else r.category;
}

apply_words-verdict :
    (d : ClassifierData) (words : List Text) (r : Classification)
    → apply_words d words r ≡ (any (has_word d.very_bad_words) words, verdict d words r)
unfolding apply_words words_before
apply_words-verdict d [] r = refl
apply_words-verdict d (w ∷ words) r = elim (Bool-cases (has_word d.very_bad_words w)) [
  | inl e ↦ rw e refl
  | inr e ↦ rw e (
      apply_words-verdict d words
        (if has_word d.block_words w then record r { category = xxx } else r)
      ∙ ground arith)
]

-- The loop over more words goes on from what the words in front leave, unless these end it.
apply_words-append :
    (d : ClassifierData) (xs ys : List Text) (r : Classification)
    → apply_words d (xs ++ ys) r ≡ (
        if (apply_words d xs r).0
        then apply_words d xs r
        else apply_words d ys (apply_words d xs r).1)
unfolding apply_words
apply_words-append d [] ys r = refl
apply_words-append d (w ∷ xs) ys r = elim (Bool-cases (has_word d.very_bad_words w)) [
  | inl e ↦ rw e refl
  | inr e ↦ rw e (
      apply_words-append d xs ys
        (if has_word d.block_words w then record r { category = xxx } else r))
]

apply_files-words :
    (d : ClassifierData) (files : List File) (r : Classification)
    → apply_files d files r ≡ (apply_words d (path_words files) r).1
unfolding apply_files apply_bad_words path_words
apply_files-words d [] r = unfold apply_words in refl
apply_files-words d (f ∷ files) r =
    let words = split_on_delimiters (to_lower (strip_extension f.path)) in
    rw (apply_words-append d words (path_words files) r)
      (elim (Bool-cases (apply_words d words r).0) [
        | inl e ↦ rw e refl
        | inr e ↦ rw e (apply_files-words d files (apply_words d words r).1)
      ])

-- The words of the name first, then those of the files.
name_then_files :
    (d : ClassifierData) (words : List Text) (files : List File) (r : Classification)
    → (if (apply_words d words r).0
        then (apply_words d words r).1
        else apply_files d files (apply_words d words r).1)
      ≡ verdict d (words ++ path_words files) r
name_then_files d words files r =
    let end =
      ap (λ (p : Bool × Classification). p.1)
        (apply_words-verdict d (words ++ path_words files) r) in
    let go = apply_words-append d words (path_words files) r in
    elim (Bool-cases (apply_words d words r).0) [
      | inl e ↦ rw (go, e) refl
      | inr e ↦ rw (go, e) (apply_files-words d files (apply_words d words r).1)
    ]
    ∙ end

path_words-stems :
    (files : List File)
    → path_words files ≡ words_in (map (λ (f : File). strip_extension f.path) files)
unfolding path_words words_in split_on_delimiters
path_words-stems [] = refl
path_words-stems (f ∷ files) =
    rw (split_loop-cuts (to_lower (strip_extension f.path)) [], path_words-stems files) refl

module _ (float : FloatOps) (walk : List (Text × float.Double) → List (Text × float.Double)) where
  -- The words of a torrent are those of its name and of its file paths without their extension, in
  -- order. The extension is what stands from the last dot of the whole path on, whether a directory
  -- or the file has it; a path without a dot, or whose last dot stands first, is taken whole. The
  -- words of a text are what stands between the delimiters of its lower-case form and is not empty.
  -- A torrent whose files vote for video, pictures or archive is bad exactly if one of its words is
  -- in the list of very bad words, and is in the category xxx exactly if a word in front of the first
  -- such word, or any word if there is none, is in the other list. Every other torrent keeps the type
  -- of the vote and has no category.
  pub classify_lem :
      (d : ClassifierData) (name : Text) (files : List File)
      → let voted : Classification = record {
        type = detect_type_from_files float walk d files;
        category = ContentCategory.unknown;
      } in
        (stems : List Text) × AreStems files stems
        × (classify float walk d name files
            ≡ (if is_media voted.type then verdict d (words_in (name ∷ stems)) voted else voted))
  unfolding classify apply_bad_words words_in split_on_delimiters
  classify_lem d name files = (
    map (λ (f : File). strip_extension f.path) files,
    stems_lem files,
    elim (Bool-cases (is_media (detect_type_from_files float walk d files))) [
      | inl e ↦ rw e (
          name_then_files d (split_loop [] (to_lower name)) files _
          ∙ rw (split_loop-cuts (to_lower name) [], path_words-stems files) refl)
      | inr e ↦ rw e refl
    ],
  )
