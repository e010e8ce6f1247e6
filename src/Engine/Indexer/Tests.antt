-- ===== src/Engine/Indexer/Tests.antt =====
-- The theorems on the indexer with its classifier and filter (native/engine/indexer.cpp) at concrete
-- inputs.
use rats_search_tui.Base.{pos, List, [], Text, arith}
use rats_search_tui.Domain.Json.Sample.{sample}
use rats_search_tui.Domain.Samples.{ubuntu, words, strict, whole}
use rats_search_tui.Domain.Classifier.{ClassifierData, classify_torrent}
use rats_search_tui.Domain.Filter.{FilterSettings}
use rats_search_tui.Domain.Filter.Accepts.{IsAcceptable}

abbrev tables : ClassifierData
tables = record { extension_to_type = []; block_words = []; very_bad_words = [] }

abbrev in_order : List (Text × whole.Double) → List (Text × whole.Double)
in_order m = m

-- One file at most, where the torrent has two.
abbrev narrow : FilterSettings
narrow = record strict { max_files = pos 1 }

too_many_files : ¬ IsAcceptable sample words narrow (classify_torrent whole in_order tables ubuntu)
unfolding classify_torrent
too_many_files ok = absurd (omega (arith, ok.sizes.0))
