-- ===== src/Index/Groonga/Writes.antt =====
-- native/index/groonga_index.cpp: the operations that write. What one returns is none where a getter
-- throws; `now` is the time in seconds.
use rats_search_tui.Base.{
  ℤ, pos, ltb_ℤ, eq_ℤ, Bool, true, false, not, List, [], ◌∷◌, ◌++◌, Option, none, some, Text, codes,
  to_lower, null, FloatOps, if◌then◌else◌,
}
use rats_search_tui.Domain.Json.{JsonOps}
use rats_search_tui.Domain.Json.Arrays.{push_all}
use rats_search_tui.Domain.Codec.{set_all, files_to_json}
use rats_search_tui.Domain.Content.{type_to_id, category_to_id}
use rats_search_tui.Domain.Torrent.{File, Torrent, is_valid}
use rats_search_tui.Index.Groonga.Client.{GroongaOps, send}
use rats_search_tui.Index.Groonga.Query.{quote_token, select_of}
use rats_search_tui.Index.Groonga.Rows.{extract_first_id, first_text}

module _ (json : JsonOps) (float : FloatOps) (groonga : GroongaOps json float) where
  open json use {
    Json, object, array, of_string, is_object, is_array, is_string, empty, find, elements,
    get_string,
  }
  open float use {Double, div, lit}
  open groonga use {State, is_null, dump, parse, members, of_double}

  unfoldable pub lowered_strings : List Json → List Json
  lowered_strings [] = []
  lowered_strings (v ∷ vs) =
      let rest = lowered_strings vs in
      if is_string v then of_string (to_lower (get_string v)) ∷ rest else rest

  abbrev pub trackers_of : Option Json → List (Text × Json)
  trackers_of none = []
  trackers_of (some v) =
      if is_array v
      then (codes "trackers", push_all json array (lowered_strings (elements v))) ∷ []
      else []

  -- The member `trackers` of a row, from that of its information.
  unfoldable pub trackers_member : Json → List (Text × Json)
  trackers_member info = trackers_of (find info (codes "trackers"))

  abbrev pub seconds : ℤ → Json
  seconds n = of_double (div (float.of_int n) (lit 10000 1))

  -- The information with the list of the files.
  unfoldable pub info_with_files : Torrent Json → Json
  info_with_files t =
      let info = if is_object t.info then t.info else object in
      if not (null t.file_list)
      then json.set info (codes "filesList") (files_to_json json t.file_list)
      else info

  unfoldable pub row_members : Torrent Json → List (Text × Json)
  row_members t =
      (codes "_key", of_string (to_lower t.hash))
        ∷ (codes "name", of_string t.name)
        ∷ (codes "size", json.of_int t.size)
        ∷ (codes "files", json.of_int t.files)
        ∷ (codes "piece_length", json.of_int t.piece_length)
        ∷ (codes "added", seconds t.added)
        ∷ (codes "content_type", json.of_int (type_to_id t.content_type))
        ∷ (codes "content_category", json.of_int (category_to_id t.content_category))
        ∷ (codes "seeders", json.of_int t.seeders)
        ∷ (codes "leechers", json.of_int t.leechers)
        ∷ (codes "completed", json.of_int t.completed)
        ∷ (codes "good", json.of_int t.good)
        ∷ (codes "bad", json.of_int t.bad)
        ∷ (if ltb_ℤ (pos 0) t.trackers_checked
            then (codes "trackers_checked", seconds t.trackers_checked) ∷ []
            else [])
      ++ (if is_object t.info then trackers_member t.info else [])
      ++ (let info = info_with_files t in
          if not (empty info) then (codes "info", of_string (dump info)) ∷ [] else [])

  abbrev pub load_command : Text → List Json → Text
  load_command table rows =
      codes "load --table "
      ++ table
      ++ codes " --values "
      ++ quote_token (dump (push_all json array rows))

  -- The load of one row of Torrents, and whether the reply is not null.
  unfoldable pub load_row : List (Text × Json) → State → Bool × State
  load_row row s =
      let (v, s1) =
        send json float groonga (load_command (codes "Torrents") (set_all json object row ∷ []))
          s in
      (not (is_null v), s1)

  unfoldable pub remove_files_for : Text → State → State
  remove_files_for hash s =
      let filter = codes "torrent == " ++ quote_token (to_lower hash) in
      (send json float groonga (codes "delete --table Files --filter " ++ quote_token filter) s).1

  unfoldable pub file_rows : Text → List File → List Json
  file_rows hash [] = []
  file_rows hash (f ∷ fs) =
      set_all json object (
        (codes "torrent", of_string (to_lower hash))
        ∷ (codes "path", of_string f.path)
        ∷ (codes "size", json.of_int f.size)
        ∷ [])
      ∷ file_rows hash fs

  unfoldable pub index_files : Torrent Json → State → State
  index_files t s =
      let s1 = remove_files_for t.hash s in
      if not (null t.file_list)
      then (send json float groonga (load_command (codes "Files") (file_rows t.hash t.file_list))
          s1).1
      else s1

  unfoldable pub upsert : Bool → Torrent Json → State → Bool × State
  upsert file_index t s =
      if not (is_valid t)
      then (false, s)
      else let (ok, s1) = load_row (row_members t) s in
        if not ok then (false, s1) else if file_index then (true, index_files t s1) else (true, s1)

  unfoldable pub remove : Bool → Text → State → Bool × State
  remove file_index hash s =
      let s1 = if file_index then remove_files_for hash s else s in
      let (v, s2) =
        send json float groonga
          (codes "delete --table Torrents --key " ++ quote_token (to_lower hash)) s1 in
      (not (is_null v), s2)

  unfoldable pub row_exists : Text → State → Option Bool × State
  row_exists hash s =
      let (v, s1) = send json float groonga (select_of (codes "_id") hash) s in
      (
        elim (extract_first_id json float groonga v) [
          | none ↦ none
          | some id ↦ some (not (eq_ℤ id (pos 0)))
        ],
        s1,
      )

  unfoldable pub read_info_raw : Text → State → Option Text × State
  read_info_raw hash s =
      let (v, s1) = send json float groonga (select_of (codes "info") hash) s in
      (first_text json float groonga v, s1)

  abbrev loaded : Bool × State → Option Bool × State
  loaded (ok, s) = (some ok, s)

  unfoldable pub update_stats : ℤ → Text → ℤ → ℤ → ℤ → State → Option Bool × State
  update_stats now hash seeders leechers completed s =
      let (found, s1) = row_exists hash s in
      elim found [
        | none ↦ (none, s1)
        | some b ↦
            if not b
            then (some false, s1)
            else loaded (
                load_row
                  ((codes "_key", of_string (to_lower hash))
                    ∷ (codes "seeders", json.of_int seeders)
                    ∷ (codes "leechers", json.of_int leechers)
                    ∷ (codes "completed", json.of_int completed)
                    ∷ (codes "trackers_checked", of_double (float.of_int now))
                    ∷ [])
                  s1)
      ]

  unfoldable pub update_votes : Text → ℤ → ℤ → State → Bool × State
  update_votes hash good bad s =
      load_row
        ((codes "_key", of_string (to_lower hash))
          ∷ (codes "good", json.of_int good)
          ∷ (codes "bad", json.of_int bad)
          ∷ [])
        s

  -- The information that is there, unless it is no object.
  unfoldable pub existing_info : Text → Json
  existing_info raw =
      if null raw
      then object
      else elim (parse raw) [ none ↦ object | some v ↦ if is_object v then v else object ]

  unfoldable pub merged_info : Text → Json → Json
  merged_info raw info =
      if is_object info then set_all json (existing_info raw) (members info) else existing_info raw

  unfoldable pub merge_info : Text → Json → State → Bool × State
  merge_info hash info s =
      let (raw, s1) = read_info_raw hash s in
      elim raw [
        | none ↦ (false, s1)
        | some text ↦
            let merged = merged_info text info in
            load_row
              ((codes "_key", of_string (to_lower hash))
                ∷ (codes "info", of_string (dump merged))
                ∷ trackers_member merged)
              s1
      ]
