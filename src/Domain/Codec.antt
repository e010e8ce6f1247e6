-- ===== src/Domain/Codec.antt =====
-- native/domain/torrent_codec.h and torrent_codec.cpp: torrents and search hits as JSON. The JSON
-- library is a parameter; `now` is the time in milliseconds.
pub mod Files
pub mod Members
pub mod RoundTrip
use rats_search_tui.Base.{
  ℕ, ℤ, pos, wrap32, ltb_ℤ, eq_ℤ, Bool, true, false, not, ◌&&◌, ◌||◌, List, [], ◌∷◌, ◌++◌, Option,
  none, some, Text, codes, to_lower, length, null, if◌then◌else◌,
}
use rats_search_tui.Domain.Content.{
  ContentType, ContentCategory, type_to_string, category_to_string, content_type_from_string,
  content_category_from_string,
}
use rats_search_tui.Domain.Torrent.{File, Torrent, SearchHit}
use rats_search_tui.Domain.Json.{JsonOps}

pub record ToJsonOptions : Type 0 where
  pub include_files : Bool
  pub include_info : Bool

module _ (json : JsonOps) where
  open json use {
    Json, null as null_value, object, array, of_string, of_int, of_bool, is_object, is_array,
    is_string, empty, set, push_back, find, elements, get_string, value_string, value_int64,
    value_int, value_bool,
  }

  -- obj[key] = value for each pair, in order.
  unfoldable pub set_all : Json → List (Text × Json) → Json
  set_all obj [] = obj
  set_all obj ((key, value) ∷ rest) = set_all (set obj key value) rest

  unfoldable pub file_to_json : File → Json
  file_to_json f =
      set_all object ((codes "path", of_string f.path) ∷ (codes "size", of_int f.size) ∷ [])

  unfoldable pub files_loop : Json → List File → Json
  files_loop arr [] = arr
  files_loop arr (f ∷ files) = files_loop (push_back arr (file_to_json f)) files

  unfoldable pub files_to_json : List File → Json
  unfolding file_to_json files_loop
  files_to_json files = files_loop array files

  unfoldable pub files_of : List Json → List File
  files_of [] = []
  files_of (v ∷ vs) =
      record {
        path = value_string v (codes "path") [];
        size = value_int64 v (codes "size") (pos 0);
      }
      ∷ files_of vs

  unfoldable pub files_from_json : Json → List File
  unfolding files_of
  files_from_json arr = if not (is_array arr) then [] else files_of (elements arr)

  -- The members that every torrent has.
  abbrev pub torrent_members : Torrent Json → List (Text × Json)
  torrent_members t =
      (codes "hash", of_string t.hash)
      ∷ (codes "name", of_string t.name)
      ∷ (codes "size", of_int t.size)
      ∷ (codes "files", of_int t.files)
      ∷ (codes "pieceLength", of_int t.piece_length)
      ∷ (codes "added", of_int t.added)
      ∷ (codes "contentType", of_string (type_to_string t.content_type))
      ∷ (codes "contentCategory", of_string (category_to_string t.content_category))
      ∷ (codes "seeders", of_int t.seeders)
      ∷ (codes "leechers", of_int t.leechers)
      ∷ (codes "completed", of_int t.completed)
      ∷ (codes "trackersChecked", of_int t.trackers_checked)
      ∷ (codes "good", of_int t.good)
      ∷ (codes "bad", of_int t.bad)
      ∷ []

  unfoldable pub torrent_to_json : Torrent Json → ToJsonOptions → Json
  torrent_to_json t options =
      let obj = set_all object (torrent_members t) in
      let obj' =
        if options.include_info && not (empty t.info) then set obj (codes "info") t.info else obj in
      if options.include_files
      then set obj' (codes "files_list") (files_to_json t.file_list)
      else obj'

  paths_loop : Json → List Text → Json
  paths_loop arr [] = arr
  paths_loop arr (p ∷ ps) = paths_loop (push_back arr (of_string p)) ps

  unfoldable pub hit_to_json : SearchHit Json → ToJsonOptions → Json
  unfolding paths_loop
  hit_to_json hit options =
      let o1 = torrent_to_json hit.torrent options in
      let o2 = if hit.from_file_match then set o1 (codes "fileMatch") (of_bool true) else o1 in
      let o3 =
        if not (null hit.matching_paths)
        then set o2 (codes "matchingPaths") (paths_loop array hit.matching_paths)
        else o2 in
      let o4 =
        if not (null hit.source_peer_id)
        then set o3 (codes "peer") (of_string hit.source_peer_id)
        else o3 in
      if hit.remote then set o4 (codes "remote") (of_bool true) else o4

  -- What a torrent is before any member is read.
  unfoldable pub default_torrent : Torrent Json
  default_torrent = record {
    hash = [];
    name = [];
    size = pos 0;
    files = pos 0;
    piece_length = pos 0;
    added = pos 0;
    content_type = ContentType.unknown;
    content_category = ContentCategory.unknown;
    seeders = pos 0;
    leechers = pos 0;
    completed = pos 0;
    trackers_checked = pos 0;
    good = pos 0;
    bad = pos 0;
    info = null_value;
    file_list = [];
  }

  unfoldable pub hash_from_json : Json → Text
  hash_from_json obj =
      let hash = to_lower (value_string obj (codes "hash") []) in
      if null hash then to_lower (value_string obj (codes "info_hash") []) else hash

  unfoldable pub file_list_from_json : Json → List File
  file_list_from_json obj = elim (find obj (codes "files_list")) [
    | some arr ↦ files_from_json arr
    | none ↦ elim (find obj (codes "filesList")) [ some arr ↦ files_from_json arr | none ↦ [] ]
  ]

  unfoldable pub torrent_from_json : ℤ → Json → Torrent Json
  torrent_from_json now obj =
      if not (is_object obj)
      then default_torrent
      else let files = value_int obj (codes "files") (pos 0) in
        let added = value_int64 obj (codes "added") (pos 0) in
        let file_list = file_list_from_json obj in
        record {
          hash = hash_from_json obj;
          name = value_string obj (codes "name") [];
          size = value_int64 obj (codes "size") (pos 0);
          files =
              if eq_ℤ files (pos 0) && not (null file_list)
              then wrap32 (pos (length file_list))
              else files;
          piece_length = value_int obj (codes "pieceLength") (pos 0);
          added = if ltb_ℤ (pos 0) added then added else now;
          content_type = content_type_from_string (value_string obj (codes "contentType") []);
          content_category =
              content_category_from_string (value_string obj (codes "contentCategory") []);
          seeders = value_int obj (codes "seeders") (pos 0);
          leechers = value_int obj (codes "leechers") (pos 0);
          completed = value_int obj (codes "completed") (pos 0);
          trackers_checked = value_int64 obj (codes "trackersChecked") (pos 0);
          good = value_int obj (codes "good") (pos 0);
          bad = value_int obj (codes "bad") (pos 0);
          info = elim (find obj (codes "info")) [ some v ↦ v | none ↦ null_value ];
          file_list = file_list;
        }

  -- push_back(v.get<std::string>()) for each element: none where one is no text and get throws.
  unfoldable pub texts_of : List Json → Option (List Text)
  texts_of [] = some []
  texts_of (v ∷ vs) =
      let rest = texts_of vs in
      if is_string v then elim rest [ none ↦ none | some ts ↦ some (get_string v ∷ ts) ] else none

  -- The texts of an array, none where it is no array.
  abbrev pub texts_in : Option Json → Option (List Text)
  texts_in none = some []
  texts_in (some v) = if is_array v then texts_of (elements v) else some []

  -- searchHitFromJson, none where it throws
  unfoldable pub hit_from_json : ℤ → Json → Option (SearchHit Json)
  hit_from_json now obj =
      let peer = value_string obj (codes "peer") [] in
      elim (if is_object obj then texts_in (find obj (codes "matchingPaths")) else some []) [
        | none ↦ none
        | some paths ↦ some (record {
          torrent = torrent_from_json now obj;
          from_file_match =
              value_bool obj (codes "fileMatch") false
              || value_bool obj (codes "isFileMatch") false;
          matching_paths = paths;
          source_peer_id = peer;
          remote = value_bool obj (codes "remote") false || not (null peer);
          feed_date = pos 0;
        })
      ]
