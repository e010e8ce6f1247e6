-- ===== src/Domain/Classifier/Tests.antt =====
-- The theorems on the classifier of native/domain/content_classifier.cpp at concrete inputs.
use rats_search_tui.Base.{
  pos, to_lower, wrap64, ◌+ℤ◌, FloatOps, refl, ◌≡◌, List, [], ◌∷◌, Text, codes, IsOrdered, arith,
  if◌then◌else◌,
}
use rats_search_tui.Domain.Content.{content_type_from_string, ContentType, ContentCategory}
use rats_search_tui.Domain.Samples.{whole}
use rats_search_tui.Domain.Torrent.{File}
use rats_search_tui.Domain.Classifier.{
  ClassifierData, Classification, is_media, detect_type_from_files, classify, best_of, tally,
  detect_file_type, add_weight, weight_of, total_size, apply_bad_words, apply_words,
  split_on_delimiters, split_loop, apply_files, strip_extension,
}
use rats_search_tui.Domain.Classifier.Verdict.{verdict, classify_lem}
use rats_search_tui.Domain.Classifier.Stems.{AreStems, words_in}
use rats_search_tui.Domain.Classifier.Vote.{Walks}

abbrev tables : ClassifierData
tables = record {
  extension_to_type = (codes "mkv", codes "video") ∷ (codes "txt", codes "books") ∷ [];
  block_words = codes "adult" ∷ [];
  very_bad_words = codes "awful" ∷ [];
}

abbrev film : File
film = record { path = codes "film/part.adult.mkv"; size = pos 700 }

abbrev notes : File
notes = record { path = codes "film/notes.txt"; size = pos 3 }

abbrev in_order : List (Text × whole.Double) → List (Text × whole.Double)
in_order m = m

-- Sums of whole numbers for the votes; a share of the size is the size itself.
abbrev shares : FloatOps
shares = record whole { add = λ a b. a +ℤ b; div = λ a b. a }

abbrev two_files : List File
two_files = film ∷ notes ∷ []

classify_lem_example :
    let voted : Classification = record {
      type = detect_type_from_files shares in_order tables two_files;
      category = ContentCategory.unknown;
    } in
    (stems : List Text) × AreStems two_files stems
    × (classify shares in_order tables (codes "A Film") two_files ≡ (
        if is_media voted.type
        then verdict tables (words_in (codes "A Film" ∷ stems)) voted
        else voted))
classify_lem_example = classify_lem shares in_order tables (codes "A Film") two_files

adult_film :
    classify shares in_order tables (codes "A Film") two_files
    ≡ record { type = ContentType.video; category = ContentCategory.xxx }
unfolding classify detect_type_from_files content_type_from_string to_lower best_of tally
    detect_file_type add_weight ◌+ℤ◌ weight_of total_size wrap64 apply_bad_words apply_words
    split_on_delimiters split_loop apply_files strip_extension
adult_film = refl

whole-IsOrdered : IsOrdered whole
whole-IsOrdered = record { irrefl = λ a. ground arith; trans = λ a b c h k. ground arith }

in_order-Walks : Walks whole whole-IsOrdered in_order
in_order-Walks = record { everything = λ P m h. h; nothing_else = λ P m h. h }
