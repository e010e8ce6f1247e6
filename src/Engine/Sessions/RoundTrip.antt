-- ===== src/Engine/Sessions/RoundTrip.antt =====
-- Reading the session that native/engine/session_store.cpp wrote.
use rats_search_tui.Base.{
  ℕ, suc, pos, wrap32, ◌≡◌, refl, ap, ◌∙◌, true, false, List, [], ◌∷◌, map, some, Text, codes,
  eq_text_refl, All, FloatOps,
}
use rats_search_tui.Domain.Json.{JsonOps, JsonLaws, IsInt32, IsInt64}
use rats_search_tui.Domain.Json.Arrays.{pushed}
use rats_search_tui.Domain.Codec.Files.{set_all-is_object}
use rats_search_tui.Domain.Codec.Members.{
  made, value, is_obj, look, read_text, read_int, read_int64, read_flag,
}
use rats_search_tui.Platform.Disk.{Disk, in_place, in_place_reads}
use rats_search_tui.Engine.Downloads.{DownloadFile, Download, default_download}
use rats_search_tui.Engine.Sessions.{
  JsonTexts, file_members, file_to_json, files_to_json, session_members, session_to_json,
  sessions_to_json, save, read_file, read_files, files_of, read_entry, read_entries, read_document,
  load,
}

-- What the code relies on of JSON texts: a double that was set is found, and a document that was
-- dumped is parsed back.
pub record TextLaws (json : JsonOps) (float : FloatOps) (texts : JsonTexts json float)
    : Type 0 where
  pub value_double_present :
      (o : json.Json) (k : Text) (x d : float.Double)
      → json.is_object o ≡ true
      → json.find o k ≡ some (texts.of_double x)
      → texts.value_double o k d ≡ x
  pub parse_dump : (j : json.Json) → texts.parse (texts.dump j) ≡ some j

-- A download whose numbers are in the range of their C++ types.
pub record IsStorable {D : Type 0} (d : Download D) : Type 0 where
  pub total : IsInt64 d.total_size
  pub downloaded : IsInt64 d.downloaded_bytes
  pub file_numbers : All (λ f. IsInt64 f.size × IsInt32 f.index) d.files

module _ (json : JsonOps) (laws : JsonLaws json) (float : FloatOps) (texts : JsonTexts json float)
    (text_laws : TextLaws json float texts) where
  open json use {Json, object, of_string, of_int, of_bool, is_object, find}
  open float use {Double, lit}
  open texts use {of_double, value_double, dump, parse}

  -- What the session keeps of a download.
  abbrev pub persisted : Download Double → Download Double
  persisted d = record (default_download float) {
    hash = d.hash;
    name = d.name;
    save_path = d.save_path;
    total_size = d.total_size;
    paused = d.paused;
    remove_on_done = d.remove_on_done;
    completed = d.completed;
    downloaded_bytes = d.downloaded_bytes;
    progress = d.progress;
    files = d.files;
  }

  read_double :
      (ps : List (Text × Json)) (k : Text) (x d : Double)
      → value json laws ps k ≡ some (of_double x)
      → value_double (made json ps) k d ≡ x
  read_double ps k x d e =
      text_laws.value_double_present (made json ps) k x d (is_obj json laws ps)
        (look json laws ps k ∙ e)

  file-round_trip :
      (i : ℕ) (f : DownloadFile Double)
      → IsInt64 f.size × IsInt32 f.index
      → read_file json float texts i (file_to_json json float texts f) ≡ f
  unfolding read_file file_to_json
  file-round_trip i f h =
      let ps = file_members json float texts f in
      λ j. record {
        path = read_text json laws ps (codes "path") f.path [] refl j;
        size = read_int64 json laws ps (codes "size") f.size (pos 0) refl h.0 j;
        index = read_int json laws ps (codes "index") f.index (wrap32 (pos i)) refl h.1 j;
        selected = read_flag json laws ps (codes "selected") f.selected true refl j;
        progress = read_double ps (codes "progress") f.progress (lit 0 1) refl j;
      }

  read_files-map :
      (i : ℕ) (fs : List (DownloadFile Double))
      → All (λ f. IsInt64 f.size × IsInt32 f.index) fs
      → read_files json float texts i (map (file_to_json json float texts) fs) ≡ fs
  unfolding read_files
  read_files-map i [] h = refl
  read_files-map i (f ∷ fs) h = λ j. file-round_trip i f h.0 j ∷ read_files-map (suc i) fs h.1 j

  files-round_trip :
      (fs : List (DownloadFile Double))
      → All (λ f. IsInt64 f.size × IsInt32 f.index) fs
      → files_of json float texts (some (files_to_json json float texts fs)) ≡ fs
  unfolding files_of files_to_json
  files-round_trip fs h =
      let (is_arr, eq) = pushed json laws (map (file_to_json json float texts) fs) in
      rw (is_arr, eq) (read_files-map 0 fs h)

  entry-round_trip :
      (d : Download Double)
      → IsStorable d
      → read_entry json float texts (session_to_json json float texts d) ≡ persisted d
  unfolding read_entry session_to_json
  entry-round_trip d h =
      let ps = session_members json float texts d in
      λ j. record (default_download float) {
        hash = read_text json laws ps (codes "hash") d.hash [] refl j;
        name = read_text json laws ps (codes "name") d.name [] refl j;
        save_path = read_text json laws ps (codes "savePath") d.save_path [] refl j;
        total_size =
            read_int64 json laws ps (codes "totalSize") d.total_size (pos 0) refl h.total j;
        paused = read_flag json laws ps (codes "paused") d.paused false refl j;
        remove_on_done =
            read_flag json laws ps (codes "removeOnDone") d.remove_on_done false refl j;
        completed = read_flag json laws ps (codes "completed") d.completed false refl j;
        downloaded_bytes =
            read_int64 json laws ps (codes "downloadedBytes") d.downloaded_bytes (pos 0) refl
              h.downloaded j;
        progress = read_double ps (codes "progress") d.progress (lit 0 1) refl j;
        files =
            (ap (files_of json float texts) (look json laws ps (codes "files"))
                ∙ files-round_trip d.files h.file_numbers)
              j;
      }

  session-is_object : (d : Download Double) → is_object (session_to_json json float texts d) ≡ true
  unfolding session_to_json
  session-is_object d =
      set_all-is_object json laws (session_members json float texts d) object laws.object_is_object

  entries-round_trip :
      (ds : List (Download Double))
      → All (λ d. IsStorable d) ds
      → read_entries json float texts (map (session_to_json json float texts) ds) ≡ map persisted ds
  unfolding read_entries
  entries-round_trip [] h = refl
  entries-round_trip (d ∷ ds) h =
      rw (session-is_object d) (λ j. entry-round_trip d h.0 j ∷ entries-round_trip ds h.1 j)

  document-round_trip :
      (ds : List (Download Double))
      → All (λ d. IsStorable d) ds
      → read_document json float texts (parse (dump (sessions_to_json json float texts ds)))
        ≡ map persisted ds
  unfolding read_document sessions_to_json
  document-round_trip ds h =
      let (is_arr, eq) = pushed json laws (map (session_to_json json float texts) ds) in
      rw (text_laws.parse_dump _, is_arr, eq) (entries-round_trip ds h)

  -- A save of downloads whose numbers are in the range of their types, in which the file was written
  -- to its end and renamed, or removed where there are no downloads, says that it succeeded, and
  -- loading the same path gives the downloads with what the session keeps of them, in their order:
  -- all but the speed, the number of peers, whether the metadata are known and the samples of the
  -- poll, which are those of a new download. After a save of no downloads this is the empty list.
  pub session-round_trip :
      (path : Text) (ds : List (Download Double)) (disk : Disk texts.Content)
      → All (λ d. IsStorable d) ds
      → ((save json float texts true in_place path ds disk).0 ≡ true)
        × (load json float texts path (save json float texts true in_place path ds disk).1
            ≡ map persisted ds)
  unfolding save load
  session-round_trip path [] disk h = (refl, rw (eq_text_refl path, load) refl)
  session-round_trip path (d ∷ ds) disk h =
      let (ok, read) =
        in_place_reads path (dump (sessions_to_json json float texts (d ∷ ds))) disk in
      (ok, rw (read, load) (document-round_trip (d ∷ ds) h))
