-- ===== src/Index/Groonga/Tests.antt =====
-- The theorems on native/index/groonga_index.cpp at concrete inputs.
use mathlib.Core.Option
use rats_search_tui.Base.{
  ◌≡◌, refl, Bool, true, false, List, [], ◌∷◌, map, Option, none, some, Text, codes, eq_text,
  length, Permutes, find_key, any, ◌++◌,
}
use rats_search_tui.Domain.Json.Sample.{sample, Value, nothing, text, items, item}
use rats_search_tui.Domain.Codec.{default_torrent}
use rats_search_tui.Domain.Torrent.{Torrent, SearchHit}
use rats_search_tui.Index.{SearchQuery, lookup_query}
use rats_search_tui.Index.Groonga.Client.{
  GroongaOps, send, reply_value, received, core_objects, file_objects,
}
use rats_search_tui.Index.Groonga.Query.{
  escaped, escape, quote_token, names_args, files_args, parents_args, from_torrents, from_files,
  apply_prefix_star, last_token, build_filter_expr, filter_parts, content_type_filter_expr, join,
}
use rats_search_tui.Index.Groonga.Rows.{
  first_result_set, row_to_torrent, parse_select_rows, columns_of, set_columns, set_column,
  count_files,
}
use rats_search_tui.Index.Groonga.Files.{HitSort, search_files, found_in_reply, matches_of}
use rats_search_tui.Index.Groonga.Tokens.{read_command, searches_read}
use rats_search_tui.Index.Groonga.Grouped.{Matches, EachHit, search_files-Matches}
use rats_search_tui.Index.Groonga.Samples.{exact, reply, store}

abbrev first_hash : Text
first_hash = codes "aa"

abbrev second_hash : Text
second_hash = codes "bb"

abbrev pair_row : Text → Text → Value
pair_row hash path = item (item items (text hash)) (text path)

abbrev no_rows : Value
no_rows = item (item items items) items

abbrev file_rows : Value
file_rows =
    item
      (item (item no_rows (pair_row first_hash (codes "a.txt")))
        (pair_row second_hash (codes "b.txt")))
      (pair_row first_hash (codes "c.txt"))

abbrev full : GroongaOps sample exact
full = store (item items no_rows) (item items file_rows) nothing

-- A text that tries to leave its quotes.
abbrev hostile : SearchQuery
hostile = lookup_query (codes "x\" --limit \"9\\")

escapes : quote_token (codes "a\"\\b") ≡ codes "\"a\\\"\\\\b\""
unfolding quote_token escape escaped
escapes = refl

stars :
    (apply_prefix_star (codes "big ubun") ≡ codes "big ubun*")
    × (apply_prefix_star (codes "big ub") ≡ codes "big ub")
unfolding apply_prefix_star last_token
stars = (refl, refl)

filters : build_filter_expr (lookup_query (codes "x")) ≡ []
unfolding build_filter_expr filter_parts content_type_filter_expr join lookup_query
filters = refl

searches_read_example :
    (read_command
        (codes "select --table Torrents")
        (length (names_args hostile))
        (from_torrents (names_args hostile))
      ≡ some (names_args hostile))
    × (read_command
          (codes "select --table Files")
          (length (files_args hostile))
          (from_files (files_args hostile))
        ≡ some (files_args hostile))
    × (read_command
          (codes "select --table Torrents")
          (length (parents_args (first_hash ∷ []) hostile))
          (from_torrents (parents_args (first_hash ∷ []) hostile))
        ≡ some (parents_args (first_hash ∷ []) hostile))
searches_read_example = searches_read (first_hash ∷ []) hostile

-- The reply for the torrents of both hashes, with the column of the key.
abbrev parent_rows : Value
parent_rows =
    item
      (item
        (item (item items items) (item items (item (item items (text (codes "_key"))) (text []))))
        (item items (text first_hash)))
      (item items (text second_hash))

abbrev with_parents : GroongaOps sample exact
with_parents = store (item items parent_rows) (item items file_rows) nothing

abbrev as_given : HitSort Value
as_given = λ p hits. hits

as_given-Permutes : (p : SearchHit Value → SearchHit Value → Bool) → Permutes (as_given p)
as_given-Permutes p = record { lengths = λ xs. refl; members = λ P xs h. h }

abbrev found_pairs : List (Text × Text)
found_pairs =
    (first_hash, codes "a.txt") ∷ (second_hash, codes "b.txt") ∷ (first_hash, codes "c.txt") ∷ []

pairs_found :
    found_in_reply sample exact with_parents
      (send sample exact with_parents (from_files (files_args hostile)) false).0
    ≡ some found_pairs
unfolding found_in_reply send reply_value received first_result_set matches_of
pairs_found = refl

search_files-Matches_example :
    EachHit sample exact with_parents
      (Matches sample exact with_parents found_pairs)
      (search_files sample exact with_parents as_given true hostile false).0
search_files-Matches_example =
    search_files-Matches sample exact with_parents as_given as_given-Permutes true hostile false
      found_pairs pairs_found

-- Both rows are read as torrents, so that the conclusion is about two hits.
two_parents :
    Option.map
      (map Torrent.hash)
      (parse_select_rows sample exact with_parents (item items parent_rows))
    ≡ some (first_hash ∷ second_hash ∷ [])
unfolding parse_select_rows first_result_set columns_of row_to_torrent set_columns set_column
    count_files default_torrent
two_parents = refl

abbrev was_run : Option Text → List Text → Bool
was_run none s = false
was_run (some ddl) s = any (eq_text ddl) s

-- A store whose state is the commands that were run: an object is there when its command was.
abbrev builder : GroongaOps sample exact
builder = record (store nothing nothing nothing) {
  State = List Text;
  run = λ command s. (reply (codes "1"), command ∷ s);
  exists = λ name s. was_run (find_key name (core_objects ++ file_objects)) s;
}
