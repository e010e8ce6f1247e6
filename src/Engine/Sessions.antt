-- ===== src/Engine/Sessions.antt =====
-- native/engine/session_store.h and session_store.cpp, with the JSON of native/engine/downloads.cpp: the
-- session file. The disk is a function from paths to what the files hold; how an attempt to write
-- ends is an argument. Doubles, and the JSON library with its texts, are parameters.
pub mod RoundTrip
pub mod Failures
mod Tests
use rats_search_tui.Base.{
  ℕ, suc, ℤ, pos, wrap32, Bool, true, false, List, [], ◌∷◌, ◌++◌, map, Option, none, some, Text,
  codes, eq_text, null, FloatOps, if◌then◌else◌,
}
use rats_search_tui.Domain.Json.{JsonOps}
use rats_search_tui.Domain.Json.Arrays.{push_all}
use rats_search_tui.Domain.Codec.{set_all}
use rats_search_tui.Platform.Disk.{Disk, put_file, Outcome, write_file}
use rats_search_tui.Engine.Downloads.{DownloadFile, Download, default_download}

-- Doubles in JSON, and JSON as what files hold: dump(2), and parse, which gives none for a discarded
-- value.
pub record JsonTexts (json : JsonOps) (float : FloatOps) : Type 1 where
  pub Content : Type 0
  pub of_double : float.Double → json.Json
  pub value_double : json.Json → Text → float.Double → float.Double
  pub dump : json.Json → Content
  pub parse : Content → Option json.Json

module _ (json : JsonOps) (float : FloatOps) (texts : JsonTexts json float) where
  open json use {
    Json, object, array, of_string, of_int, of_bool, is_object, is_array, push_back, find, elements,
    value_string, value_int64, value_int, value_bool,
  }
  open float use {Double, lit}
  open texts use {Content, of_double, value_double, dump, parse}

  abbrev pub file_members : DownloadFile Double → List (Text × Json)
  file_members f =
      (codes "path", of_string f.path)
      ∷ (codes "size", of_int f.size)
      ∷ (codes "index", of_int f.index)
      ∷ (codes "selected", of_bool f.selected)
      ∷ (codes "progress", of_double f.progress)
      ∷ []

  unfoldable pub file_to_json : DownloadFile Double → Json
  file_to_json f = set_all json object (file_members f)

  unfoldable pub files_to_json : List (DownloadFile Double) → Json
  files_to_json fs = push_all json array (map file_to_json fs)

  -- Download::toJson, with the members that the session does not have
  unfoldable pub download_to_json : Download Double → Json
  download_to_json d = set_all json object (
      (codes "hash", of_string d.hash)
      ∷ (codes "name", of_string d.name)
      ∷ (codes "savePath", of_string d.save_path)
      ∷ (codes "totalSize", of_int d.total_size)
      ∷ (codes "downloadedBytes", of_int d.downloaded_bytes)
      ∷ (codes "progress", of_double d.progress)
      ∷ (codes "downloadSpeed", of_double d.download_speed)
      ∷ (codes "peersConnected", of_int d.peers_connected)
      ∷ (codes "paused", of_bool d.paused)
      ∷ (codes "removeOnDone", of_bool d.remove_on_done)
      ∷ (codes "ready", of_bool d.ready)
      ∷ (codes "completed", of_bool d.completed)
      ∷ (codes "files", files_to_json d.files)
      ∷ [])

  abbrev pub session_members : Download Double → List (Text × Json)
  session_members d =
      (codes "hash", of_string d.hash)
      ∷ (codes "name", of_string d.name)
      ∷ (codes "savePath", of_string d.save_path)
      ∷ (codes "totalSize", of_int d.total_size)
      ∷ (codes "paused", of_bool d.paused)
      ∷ (codes "removeOnDone", of_bool d.remove_on_done)
      ∷ (codes "completed", of_bool d.completed)
      ∷ (codes "downloadedBytes", of_int d.downloaded_bytes)
      ∷ (codes "progress", of_double d.progress)
      ∷ (codes "files", files_to_json d.files)
      ∷ []

  unfoldable pub session_to_json : Download Double → Json
  session_to_json d = set_all json object (session_members d)

  unfoldable pub sessions_to_json : List (Download Double) → Json
  sessions_to_json ds = push_all json array (map session_to_json ds)

  -- `removed` is whether the file can be removed, which the code does not ask.
  unfoldable pub save :
      Bool → Outcome Content → Text → List (Download Double) → Disk Content → Bool × Disk Content
  save removed outcome path ds disk =
      if null ds
      then (true, if removed then put_file path none disk else disk)
      else write_file outcome path (dump (sessions_to_json ds)) disk

  unfoldable pub read_file : ℕ → Json → DownloadFile Double
  read_file i v = record {
    path = value_string v (codes "path") [];
    size = value_int64 v (codes "size") (pos 0);
    index = value_int v (codes "index") (wrap32 (pos i));
    selected = value_bool v (codes "selected") true;
    progress = value_double v (codes "progress") (lit 0 1);
  }

  unfoldable pub read_files : ℕ → List Json → List (DownloadFile Double)
  read_files i [] = []
  read_files i (v ∷ vs) = read_file i v ∷ read_files (suc i) vs

  unfoldable pub files_of : Option Json → List (DownloadFile Double)
  files_of none = []
  files_of (some v) = if is_array v then read_files 0 (elements v) else []

  unfoldable pub read_entry : Json → Download Double
  read_entry v = record (default_download float) {
    hash = value_string v (codes "hash") [];
    name = value_string v (codes "name") [];
    save_path = value_string v (codes "savePath") [];
    total_size = value_int64 v (codes "totalSize") (pos 0);
    paused = value_bool v (codes "paused") false;
    remove_on_done = value_bool v (codes "removeOnDone") false;
    completed = value_bool v (codes "completed") false;
    downloaded_bytes = value_int64 v (codes "downloadedBytes") (pos 0);
    progress = value_double v (codes "progress") (lit 0 1);
    files = files_of (find v (codes "files"));
  }

  unfoldable pub read_entries : List Json → List (Download Double)
  read_entries [] = []
  read_entries (v ∷ vs) =
      let rest = read_entries vs in if is_object v then read_entry v ∷ rest else rest

  unfoldable pub read_document : Option Json → List (Download Double)
  read_document none = []
  read_document (some doc) = if is_array doc then read_entries (elements doc) else []

  unfoldable pub load : Text → Disk Content → List (Download Double)
  load path disk = elim (disk path) [ none ↦ [] | some text ↦ read_document (parse text) ]
