-- ===== src/Index/Groonga/Reads.antt =====
-- native/index/groonga_index.cpp: the operations that read. What one returns is none where a getter
-- throws; `now` is the time in seconds, and `draw` gives the numbers of random between one and a bound.
use rats_search_tui.Base.{
  ℕ, zero, suc, ℤ, pos, pos_part, ltb_ℤ, leb_ℤ, ◌-ℤ◌, ◌*◌, ◌+◌, false, List, [], ◌∷◌, ◌++◌, map,
  Option, none, some, Text, codes, eq_text, to_string, null, FloatOps, if◌then◌else◌,
}
use mathlib.Core.Option
use rats_search_tui.Domain.Json.{JsonOps}
use rats_search_tui.Domain.Torrent.{Torrent, SearchHit}
use rats_search_tui.Index.{SearchQuery, TopQuery, IndexStats}
use rats_search_tui.Index.Groonga.Client.{GroongaOps, send}
use rats_search_tui.Index.Groonga.Query.{
  output_columns, part_of, join, not_adult, content_type_filter_expr, page_args, names_args,
  from_torrents,
}
use rats_search_tui.Index.Groonga.Rows.{
  IdTorrent, first_result_set, parse_select_rows, extract_first_id, rows_with_ids, hashes_of,
  add_rows,
}

-- What is taken from the time of now, by the name of a range.
unfoldable pub cutoff_of : ℤ → Text → ℤ
cutoff_of now time =
    if eq_text time (codes "hours")
    then now -ℤ pos (60 * 60 * 24)
    else if eq_text time (codes "week")
    then now -ℤ pos (60 * 60 * 24 * 7)
    else if eq_text time (codes "month")
    then now -ℤ pos (60 * 60 * 24 * 30)
    else pos 0

unfoldable pub added_part : ℤ → Text → List Text
added_part now time =
    if null time
    then []
    else let cutoff = cutoff_of now time in
      if ltb_ℤ (pos 0) cutoff then (codes "added > " ++ to_string cutoff) ∷ [] else []

unfoldable pub top_args : ℤ → TopQuery → List (Text × Text)
top_args now q =
    (codes "output_columns", output_columns)
    ∷ (
      codes "filter",
      join (codes " && ") (
          codes "seeders > 0" ∷ not_adult ∷ part_of (content_type_filter_expr q.content_type)
          ++ added_part now q.time),
    )
    ∷ (codes "sort_keys", codes "-seeders")
    ∷ page_args q.offset q.limit

-- std::min<int64_t>(maxId, limit * 5 + 10), for a limit above zero
unfoldable pub oversample : ℤ → ℤ → ℤ
oversample max_id limit =
    let wanted = pos (pos_part limit * 5 + 10) in if ltb_ℤ wanted max_id then wanted else max_id

-- The draws of the rounds from i on, n of them.
unfoldable pub drawn_ids : (ℕ → ℤ) → ℕ → ℕ → List Text
drawn_ids draw i zero = []
drawn_ids draw i (suc n) = to_string (draw i) ∷ drawn_ids draw (suc i) n

unfoldable pub random_args : (ℕ → ℤ) → ℤ → ℤ → List (Text × Text)
random_args draw max_id limit =
    let ids = drawn_ids draw 0 (pos_part (oversample max_id limit)) in
    (codes "output_columns", output_columns)
    ∷ (
      codes "filter",
      codes "in_values(_id, " ++ join (codes ", ") ids ++ codes ") && seeders > 0 && " ++ not_adult,
    )
    ∷ (codes "limit", to_string limit)
    ∷ []

module _ (json : JsonOps) (float : FloatOps) (groonga : GroongaOps json float) where
  open json use {Json}
  open groonga use {State, as_int64}

  abbrev pub plain_hit : Torrent Json → SearchHit Json
  plain_hit t = record {
    torrent = t;
    from_file_match = false;
    matching_paths = [];
    source_peer_id = [];
    remote = false;
    feed_date = pos 0;
  }

  unfoldable pub search_names : SearchQuery → State → Option (List (SearchHit Json)) × State
  search_names q s =
      if null q.text
      then (some [], s)
      else let (v, s1) = send json float groonga (from_torrents (names_args q)) s in
        (Option.map (map plain_hit) (parse_select_rows json float groonga v), s1)

  unfoldable pub top : ℤ → TopQuery → State → Option (List (Torrent Json)) × State
  top now q s =
      let (v, s1) = send json float groonga (from_torrents (top_args now q)) s in
      (parse_select_rows json float groonga v, s1)

  unfoldable pub random : (ℤ → ℕ → ℤ) → ℤ → State → Option (List (Torrent Json)) × State
  random draw limit s =
      if leb_ℤ limit (pos 0)
      then (some [], s)
      else let (v, s1) =
          send json float groonga
            (from_torrents (
              (codes "output_columns", codes "_id")
              ∷ (codes "sort_keys", codes "-_id")
              ∷ (codes "limit", codes "1")
              ∷ []))
            s in
        elim (extract_first_id json float groonga v) [
          | none ↦ (none, s1)
          | some max_id ↦
              if leb_ℤ max_id (pos 0)
              then (some [], s1)
              else let (w, s2) =
                  send json float groonga (from_torrents (random_args (draw max_id) max_id limit))
                    s1 in
                (parse_select_rows json float groonga w, s2)
        ]

  unfoldable pub page_after_id : ℤ → ℤ → State → Option (List (IdTorrent Json)) × State
  page_after_id after_id limit s =
      let (v, s1) =
        send json float groonga
          (from_torrents (
            (codes "output_columns", codes "_id," ++ output_columns)
            ∷ (codes "filter", codes "_id > " ++ to_string after_id)
            ∷ (codes "sort_keys", codes "_id")
            ∷ (codes "limit", to_string limit)
            ∷ []))
          s in
      (rows_with_ids json float groonga v, s1)

  unfoldable pub lowest_value_hashes : ℤ → State → Option (List Text) × State
  lowest_value_hashes limit s =
      if leb_ℤ limit (pos 0)
      then (some [], s)
      else let (v, s1) =
          send json float groonga
            (from_torrents (
              (codes "output_columns", codes "_key")
              ∷ (codes "sort_keys", codes "seeders,added")
              ∷ (codes "limit", to_string limit)
              ∷ []))
            s in
        (
          elim (first_result_set json float groonga v) [
            | none ↦ some []
            | some set ↦ hashes_of json float groonga set.rows
          ],
          s1,
        )

  abbrev pub no_stats : IndexStats
  no_stats = record { torrents = pos 0; files = pos 0; total_size = pos 0 }

  -- The number of hits at the head, if there is one.
  unfoldable pub head_stats : List Json → Option IndexStats
  head_stats [] = some no_stats
  head_stats (v ∷ vs) = Option.map (λ n. record no_stats { torrents = n }) (as_int64 v)

  unfoldable pub counts : State → Option IndexStats × State
  counts s =
      let (v, s1) =
        send json float groonga
          (from_torrents
            ((codes "output_columns", codes "size,files") ∷ (codes "limit", codes "-1") ∷ []))
          s in
      (
        elim (first_result_set json float groonga v) [
          | none ↦ some no_stats
          | some set ↦ elim (head_stats set.hits) [
            | none ↦ none
            | some stats ↦ add_rows json float groonga stats set.rows
          ]
        ],
        s1,
      )
