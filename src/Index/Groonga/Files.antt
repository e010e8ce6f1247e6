-- ===== src/Index/Groonga/Files.antt =====
-- native/index/groonga_index.cpp: the search for names of files. What it returns is none where a getter
-- throws.
use rats_search_tui.Base.{
  pos, ltb_ℤ, Bool, true, false, not, List, [], ◌∷◌, ◌++◌, map, Option, none, some, Text, codes,
  eq_text, null, find_key, FloatOps, if◌then◌else◌,
}
use mathlib.Core.Option
use rats_search_tui.Domain.Json.{JsonOps}
use rats_search_tui.Domain.Torrent.{File, Torrent, SearchHit}
use rats_search_tui.Index.{SearchQuery}
use rats_search_tui.Index.Groonga.Client.{GroongaOps, send}
use rats_search_tui.Index.Groonga.Query.{
  resolve_sort_column, files_args, parents_args, from_torrents, from_files,
}
use rats_search_tui.Index.Groonga.Reads.{plain_hit}
use rats_search_tui.Index.Groonga.Rows.{first_result_set, parse_select_rows}

-- Adds a path to those of its hash, or a new hash at the end.
unfoldable pub add_match : Text → Text → List (Text × List Text) → List (Text × List Text)
add_match hash path [] = (hash, path ∷ []) ∷ []
add_match hash path ((h, paths) ∷ rest) =
    if eq_text h hash then (h, paths ++ path ∷ []) ∷ rest else (h, paths) ∷ add_match hash path rest

unfoldable pub add_matches : List (Text × Text) → List (Text × List Text) → List (Text × List Text)
add_matches [] found = found
add_matches ((hash, path) ∷ rows) found = add_matches rows (add_match hash path found)

-- std::stable_sort of hits, by a test of which comes first
abbrev pub HitSort : Type 0 → Type 0
HitSort J = (SearchHit J → SearchHit J → Bool) → List (SearchHit J) → List (SearchHit J)

module _ (json : JsonOps) (float : FloatOps) (groonga : GroongaOps json float) where
  open json use {Json, is_array, elements}
  open groonga use {State, as_string}

  -- The hash and the path of a row, or no pair if the row is too short.
  abbrev match_of : List Json → Option (List (Text × Text))
  match_of [] = some []
  match_of (a ∷ []) = some []
  match_of (a ∷ b ∷ vs) = elim (as_string a) [
    | none ↦ none
    | some hash ↦ Option.map (λ path. (hash, path) ∷ []) (as_string b)
  ]

  unfoldable pub matches_of : List Json → Option (List (Text × Text))
  matches_of [] = some []
  matches_of (row ∷ rows) =
      let rest = matches_of rows in
      elim (if is_array row then match_of (elements row) else some []) [
        | none ↦ none
        | some pair ↦ Option.map (λ pairs. pair ++ pairs) rest
      ]

  unfoldable pub found_in_reply : Json → Option (List (Text × Text))
  found_in_reply v = elim (first_result_set json float groonga v) [
    | none ↦ some []
    | some set ↦ matches_of set.rows
  ]

  abbrev shown_file : Text → File
  shown_file path = record { path = path; size = pos 0 }

  -- The hit of a torrent, with the paths that were found for its hash.
  abbrev pub hit_with : Option (List Text) → Torrent Json → SearchHit Json
  hit_with none t = record (plain_hit json float groonga t) { from_file_match = true }
  hit_with (some paths) t =
      record (plain_hit json float groonga
        (record t { file_list = t.file_list ++ map shown_file paths })) {
          from_file_match = true;
          matching_paths = paths;
        }

  unfoldable pub file_hit : List (Text × List Text) → Torrent Json → SearchHit Json
  file_hit found t = hit_with (find_key t.hash found) t

  unfoldable pub comes_before : Text → Bool → SearchHit Json → SearchHit Json → Bool
  comes_before column descending a b =
      if eq_text column (codes "seeders")
      then if descending
        then ltb_ℤ b.torrent.seeders a.torrent.seeders
        else ltb_ℤ a.torrent.seeders b.torrent.seeders
      else if eq_text column (codes "size")
      then if descending
        then ltb_ℤ b.torrent.size a.torrent.size
        else ltb_ℤ a.torrent.size b.torrent.size
      else false

  module _ (stable_sort : HitSort Json) where
    unfoldable pub sort_hits : SearchQuery → List (SearchHit Json) → List (SearchHit Json)
    sort_hits q hits =
        let column = resolve_sort_column q.sort in
        if not (null column) then stable_sort (comes_before column q.descending) hits else hits

    -- The torrents of the hashes that were found.
    unfoldable pub search_parents :
        SearchQuery → List (Text × List Text) → State → Option (List (SearchHit Json)) × State
    search_parents q found s =
        if null found
        then (some [], s)
        else let (v, s1) =
            send json float groonga (from_torrents (parents_args (map (λ e. e.0) found) q)) s in
          (
            Option.map (λ ts. sort_hits q (map (file_hit found) ts))
                (parse_select_rows json float groonga v),
            s1,
          )

    unfoldable pub search_files :
        Bool → SearchQuery → State → Option (List (SearchHit Json)) × State
    search_files file_index q s =
        if null q.text
        then (some [], s)
        else if not file_index
        then (some [], s)
        else let (v, s1) = send json float groonga (from_files (files_args q)) s in
          elim (found_in_reply v) [
            | none ↦ (none, s1)
            | some pairs ↦ search_parents q (add_matches pairs []) s1
          ]
