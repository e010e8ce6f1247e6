-- ===== src/Index/Groonga/Rows.antt =====
-- native/index/groonga_index.cpp: what is read of the reply to a select. A result is none where a getter
-- throws.
use rats_search_tui.Base.{
  ℤ, pos, eq_ℤ, wrap32, wrap64, ◌+ℤ◌, not, ◌&&◌, List, [], ◌∷◌, Option, none, some, Text, codes,
  eq_text, length, null, FloatOps, if◌then◌else◌,
}
use mathlib.Core.Option
use rats_search_tui.Domain.Json.{JsonOps}
use rats_search_tui.Domain.Codec.{default_torrent, files_from_json}
use rats_search_tui.Domain.Content.{content_type_from_id, content_category_from_id}
use rats_search_tui.Domain.Torrent.{File, Torrent}
use rats_search_tui.Index.{IndexStats}
use rats_search_tui.Index.Groonga.Client.{GroongaOps}

-- The head of a result set, its columns and its rows.
pub record ResultSet (J : Type 0) : Type 0 where
  pub hits : List J
  pub columns : List J
  pub rows : List J

pub record IdTorrent (J : Type 0) : Type 0 where
  pub id : ℤ
  pub torrent : Torrent J

-- The results for all elements, or none if one throws.
abbrev pub each : {A B : Type 0} → (A → Option B) → List A → Option (List B)
each f [] = some []
each f (x ∷ xs) = elim (f x) [ none ↦ none | some y ↦ Option.map (λ ys. y ∷ ys) (each f xs) ]

module _ (json : JsonOps) (float : FloatOps) (groonga : GroongaOps json float) where
  open json use {Json, is_object, is_array, elements, find}
  open float use {Double, mul, lit, less}
  open groonga use {as_string, as_int64, as_int, as_double, parse, erase, llround, freed}

  abbrev result_set_of : List Json → Option (ResultSet Json)
  result_set_of [] = none
  result_set_of (a ∷ []) = none
  result_set_of (a ∷ b ∷ rows) =
      if is_array a && is_array b
      then some (record { hits = elements a; columns = elements b; rows = rows })
      else none

  abbrev first_of : List Json → Option (ResultSet Json)
  first_of [] = none
  first_of (v ∷ vs) = if is_array v then result_set_of (elements v) else none

  unfoldable pub first_result_set : Json → Option (ResultSet Json)
  first_result_set response = if is_array response then first_of (elements response) else none

  abbrev pub milliseconds : Double → ℤ
  milliseconds seconds = llround (mul seconds (lit 10000 1))

  abbrev pub listed_files : Option Json → List File → List File
  listed_files none fs = fs
  listed_files (some list) fs = files_from_json json list

  unfoldable pub set_info : Torrent Json → Text → Torrent Json
  set_info t text = if null text then t else elim (parse text) [
    | none ↦ t
    | some j ↦
        if is_object j
        then record t {
          file_list = listed_files (find j (codes "filesList")) t.file_list;
          info = erase j (codes "filesList");
        }
        else t
  ]

  -- What one column sets.
  unfoldable pub set_column : Text → Json → Torrent Json → Option (Torrent Json)
  set_column col v t =
      if eq_text col (codes "_key")
      then Option.map (λ s. record t { hash = s }) (as_string v)
      else if eq_text col (codes "name")
      then Option.map (λ s. record t { name = s }) (as_string v)
      else if eq_text col (codes "size")
      then Option.map (λ n. record t { size = n }) (as_int64 v)
      else if eq_text col (codes "files")
      then Option.map (λ n. record t { files = n }) (as_int v)
      else if eq_text col (codes "piece_length")
      then Option.map (λ n. record t { piece_length = n }) (as_int v)
      else if eq_text col (codes "added")
      then Option.map (λ x. record t { added = milliseconds x }) (as_double v)
      else if eq_text col (codes "content_type")
      then Option.map (λ n. record t { content_type = content_type_from_id n }) (as_int v)
      else if eq_text col (codes "content_category")
      then Option.map (λ n. record t { content_category = content_category_from_id n }) (as_int v)
      else if eq_text col (codes "seeders")
      then Option.map (λ n. record t { seeders = n }) (as_int v)
      else if eq_text col (codes "leechers")
      then Option.map (λ n. record t { leechers = n }) (as_int v)
      else if eq_text col (codes "completed")
      then Option.map (λ n. record t { completed = n }) (as_int v)
      else if eq_text col (codes "good")
      then Option.map (λ n. record t { good = n }) (as_int v)
      else if eq_text col (codes "bad")
      then Option.map (λ n. record t { bad = n }) (as_int v)
      else if eq_text col (codes "trackers_checked")
      then Option.map
          (λ x. record t { trackers_checked = if less (lit 0 0) x then milliseconds x else pos 0 })
          (as_double v)
      else if eq_text col (codes "info")
      then Option.map (set_info t) (as_string v)
      else some t

  -- The columns with the elements of the row, as far as both go.
  unfoldable pub set_columns : List Text → List Json → Torrent Json → Option (Torrent Json)
  set_columns [] vs t = some t
  set_columns (col ∷ cols) [] t = some t
  set_columns (col ∷ cols) (v ∷ vs) t = elim (set_column col v t) [
    | none ↦ none
    | some t1 ↦ set_columns cols vs t1
  ]

  unfoldable pub count_files : Torrent Json → Torrent Json
  count_files t =
      if eq_ℤ t.files (pos 0) && not (null t.file_list)
      then record t { files = wrap32 (pos (length t.file_list)) }
      else t

  unfoldable pub row_to_torrent : List Text → Json → Option (Torrent Json)
  row_to_torrent columns row =
      if not (is_array row)
      then some (default_torrent json)
      else Option.map count_files (set_columns columns (elements row) (default_torrent json))

  -- The names of the columns that have one.
  unfoldable pub columns_of : List Json → Option (List Text)
  columns_of [] = some []
  columns_of (c ∷ cs) =
      let rest = columns_of cs in
      if is_array c
      then elim (elements c) [
        | [] ↦ rest
        | ◌∷◌ v vs ↦ elim (as_string v) [
          | none ↦ none
          | some name ↦ Option.map (λ names. name ∷ names) rest
        ]
      ]
      else rest

  unfoldable pub parse_select_rows : Json → Option (List (Torrent Json))
  parse_select_rows response = elim (first_result_set response) [
    | none ↦ some []
    | some set ↦ elim (columns_of set.columns) [
      | none ↦ none
      | some columns ↦ each (row_to_torrent columns) set.rows
    ]
  ]

  abbrev first_element : Json → Option Json
  first_element row =
      if is_array row then elim (elements row) [ [] ↦ none | ◌∷◌ v vs ↦ some v ] else none

  unfoldable pub extract_first_id : Json → Option ℤ
  extract_first_id response = elim (first_result_set response) [
    | none ↦ some (pos 0)
    | some set ↦ elim set.rows [
      | [] ↦ some (pos 0)
      | ◌∷◌ row rows ↦ elim (first_element row) [ none ↦ some (pos 0) | some v ↦ as_int64 v ]
    ]
  ]

  -- The text of `info` of the first row: none where there is no row, empty where it has no text. The
  -- rows are read through a pointer into a reply that is destroyed by then.
  unfoldable pub first_text : Json → Option Text
  first_text response = elim (first_result_set response) [
    | none ↦ none
    | some set ↦ elim (freed set.rows) [
      | [] ↦ none
      | ◌∷◌ row rows ↦ elim (first_element row) [
        | none ↦ some []
        | some v ↦ if json.is_string v then some (json.get_string v) else some []
      ]
    ]
  ]

  -- row[idIdx], if the column is there and the row reaches it.
  abbrev id_at : List Text → List Json → Option Json
  id_at [] vs = none
  id_at (col ∷ cols) [] = none
  id_at (col ∷ cols) (v ∷ vs) = if eq_text col (codes "_id") then some v else id_at cols vs

  abbrev id_of : List Text → Json → Option ℤ
  id_of columns row =
      if is_array row
      then elim (id_at columns (elements row)) [ none ↦ some (pos 0) | some v ↦ as_int64 v ]
      else some (pos 0)

  unfoldable pub row_with_id : List Text → Json → Option (IdTorrent Json)
  row_with_id columns row = elim (id_of columns row) [
    | none ↦ none
    | some n ↦ Option.map (λ t. record { id = n; torrent = t }) (row_to_torrent columns row)
  ]

  unfoldable pub rows_with_ids : Json → Option (List (IdTorrent Json))
  rows_with_ids response = elim (first_result_set response) [
    | none ↦ some []
    | some set ↦ elim (columns_of set.columns) [
      | none ↦ none
      | some columns ↦ each (row_with_id columns) set.rows
    ]
  ]

  unfoldable pub hashes_of : List Json → Option (List Text)
  hashes_of [] = some []
  hashes_of (row ∷ rows) =
      let rest = hashes_of rows in
      elim (first_element row) [
        | none ↦ rest
        | some v ↦ elim (as_string v) [
          | none ↦ none
          | some hash ↦ Option.map (λ hashes. hash ∷ hashes) rest
        ]
      ]

  -- What a row adds to the totals.
  unfoldable pub add_row : IndexStats → List Json → Option IndexStats
  add_row stats [] = some stats
  add_row stats (a ∷ []) = some stats
  add_row stats (a ∷ b ∷ vs) = elim (as_int64 a) [
    | none ↦ none
    | some size ↦
        Option.map
          (λ n. record stats {
            total_size = wrap64 (stats.total_size +ℤ size);
            files = wrap64 (stats.files +ℤ n);
          })
          (as_int64 b)
  ]

  unfoldable pub add_rows : IndexStats → List Json → Option IndexStats
  add_rows stats [] = some stats
  add_rows stats (row ∷ rows) =
      elim (if is_array row then add_row stats (elements row) else some stats) [
        | none ↦ none
        | some stats1 ↦ add_rows stats1 rows
      ]
