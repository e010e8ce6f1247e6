-- ===== src/Engine/Downloads/Lifecycle.antt =====
-- native/engine/downloads.cpp: downloads are added, restored, paused and removed. That a directory is
-- made sure of before an addition, and that the files of a download are deleted, is left out.
use rats_search_tui.Base.{
  wrap32, wrap64, Bool, true, false, not, ◌&&◌, ◌++◌, Option, none, some, Text, codes, to_lower,
  null, map, FloatOps, if◌then◌else◌,
}
use rats_search_tui.Domain.Torrent.{Torrent}
use rats_search_tui.Engine.Downloads.Client.{ClientOps, TorrentStatus, TorrentInfo}
use rats_search_tui.Engine.Downloads.{
  eq_bool, DownloadFile, Download, DownloadManager, is_valid_hash, parse_info_hash, next_revision,
  find_download, put_download, erase_download, contains_key, default_download, files_from,
}

module _ (float : FloatOps) (ops : ClientOps float.Double) where
  open float use {Double, lit}
  open ops use {
    State, add_magnet, add_magnet_resumed, add_torrent, remove_torrent, save_resume_data,
    pause_torrent, resume_torrent, torrent_status, is_info_hash,
  }

  abbrev pub Manager : Type 0
  Manager = DownloadManager State Double

  unfoldable pub resolve_save_path : Text → Manager → Text
  resolve_save_path path x = if null path then x.default_path else path

  abbrev pub magnet_of : Text → Text
  magnet_of hash = codes "magnet:?xt=urn:btih:" ++ hash

  -- What an addition leaves that the client was asked for: the download is entered if it was taken.
  unfoldable pub enter : Bool × State → Download Double → Manager → Bool × Manager
  enter (taken, c) d x =
      let x' : Manager = record x { client = some c } in
      if taken
      then (
        true,
        record x' {
          downloads = put_download d.hash d x'.downloads;
          revision = next_revision x'.revision;
        },
      )
      else (false, x')

  unfoldable pub add_with : Text → Text → Option State → Manager → Bool × Manager
  add_with hash path none x = (false, x)
  add_with hash path (some c) x =
      if not (is_valid_hash hash)
      then (false, x)
      else if contains_key hash x.downloads
      then (false, x)
      else enter (add_magnet (magnet_of hash) path c)
          (record (default_download float) { hash = hash; name = hash; save_path = path }) x

  unfoldable pub add : Text → Text → Manager → Bool × Manager
  add magnet_or_hash save_path x =
      add_with (to_lower (parse_info_hash magnet_or_hash)) (resolve_save_path save_path x) x.client
        x

  unfoldable pub add_info_with :
      {J : Type 0} → Torrent J → Text → Text → Option State → Manager → Bool × Manager
  add_info_with info hash path none x = (false, x)
  add_info_with info hash path (some c) x =
      if contains_key hash x.downloads
      then (false, x)
      else enter (add_magnet (magnet_of hash) path c)
          (record (default_download float) {
            hash = hash;
            name = if null info.name then hash else info.name;
            total_size = info.size;
            save_path = path;
          })
          x

  unfoldable pub add_with_info : {J : Type 0} → Torrent J → Text → Manager → Bool × Manager
  add_with_info info save_path x =
      if not (is_valid_hash info.hash)
      then (false, x)
      else add_info_with info (to_lower info.hash) (resolve_save_path save_path x) x.client x

  unfoldable pub add_file_with : Text → Option TorrentInfo → Option State → Manager → Bool × Manager
  add_file_with path parsed none x = (false, x)
  add_file_with path none (some c) x = (false, x)
  add_file_with path (some info) (some c) x =
      if contains_key (to_lower info.info_hash_hex) x.downloads
      then (false, x)
      else enter (add_torrent info path c)
          (record (default_download float) {
            hash = to_lower info.info_hash_hex;
            name = info.name;
            save_path = path;
            total_size = wrap64 info.total_size;
            ready = true;
            files = files_from float 0 (lit 0 1) info.files;
          })
          x

  -- `parsed` is what the torrent file holds, if it can be parsed and is valid.
  unfoldable pub add_from_file : Option TorrentInfo → Text → Manager → Bool × Manager
  add_from_file parsed save_path x = add_file_with (resolve_save_path save_path x) parsed x.client x

  unfoldable pub apply_snapshot : TorrentStatus Double → Download Double → Download Double
  apply_snapshot st d = record d {
    name = if null st.name then d.name else st.name;
    total_size = wrap64 st.total_size;
    downloaded_bytes = wrap64 st.downloaded;
    progress = st.progress;
    peers_connected = wrap32 st.num_peers;
    completed = st.is_complete;
    ready = st.has_metadata;
    files = files_from float 0 (if st.is_complete then lit 10 1 else lit 0 1) st.files;
  }

  abbrev finished_file : DownloadFile Double → DownloadFile Double
  finished_file f = record f { progress = lit 10 1 }

  -- What restore takes of the metadata that the resume data brought back.
  unfoldable pub reconcile : TorrentStatus Double → Download Double → Download Double
  reconcile st d =
      let d' = apply_snapshot st d in
      if d.completed && not d'.completed
      then record d' {
        completed = true;
        progress = lit 10 1;
        downloaded_bytes = d'.total_size;
        files = map finished_file d'.files;
      }
      else d'

  -- The download that restore enters; `c` is the client after the addition.
  unfoldable pub restored : Text → Text → Download Double → State → Download Double
  restored h path entry c =
      let d : Download Double = record (default_download float) {
        hash = h;
        save_path = path;
        name = if null entry.name then h else entry.name;
        completed = entry.completed;
        total_size = entry.total_size;
        downloaded_bytes = entry.downloaded_bytes;
        progress = entry.progress;
        files = entry.files;
      } in
      let st = torrent_status h c in
      if is_info_hash h && (st.exists && st.has_metadata) then reconcile st d else d

  unfoldable pub restore_with : Text → Download Double → Option State → Manager → Bool × Manager
  restore_with path entry none x = (false, x)
  restore_with path entry (some c) x =
      let h = to_lower entry.hash in
      let r = add_magnet_resumed (magnet_of h) path c in
      if contains_key h x.downloads then (false, x) else enter r (restored h path entry r.1) x

  unfoldable pub restore : Download Double → Manager → Bool × Manager
  restore entry x = restore_with (resolve_save_path entry.save_path x) entry x.client x

  -- A call of the client on a hash, where there is a client and the hash is read.
  unfoldable pub on_client : (State → State) → Text → Option State → Option State
  on_client call h none = none
  on_client call h (some c) = some (if is_info_hash h then call c else c)

  unfoldable pub remove : Text → Bool → Manager → Manager
  remove hash keep_resume_data x =
      let h = to_lower hash in
      if contains_key h x.downloads
      then record x {
        downloads = erase_download h x.downloads;
        revision = next_revision x.revision;
        client =
            on_client (λ c. remove_torrent h (if keep_resume_data then save_resume_data h c else c))
              h x.client;
      }
      else x

  unfoldable pub set_paused_with : Bool → Text → Option (Download Double) → Manager → Bool × Manager
  set_paused_with b h none x = (false, x)
  set_paused_with b h (some d) x =
      let x' : Manager = record x {
        downloads = put_download h (record d { paused = b }) x.downloads;
        revision = next_revision x.revision;
        client = on_client (if b then pause_torrent h else resume_torrent h) h x.client;
      } in
      if eq_bool b d.paused then (false, x) else (true, x')

  unfoldable pub pause : Text → Manager → Bool × Manager
  pause hash x = set_paused_with true (to_lower hash) (find_download (to_lower hash) x.downloads) x

  unfoldable pub resume : Text → Manager → Bool × Manager
  resume hash x =
      set_paused_with false (to_lower hash) (find_download (to_lower hash) x.downloads) x

  unfoldable pub toggle_with : Text → Option (Download Double) → Manager → Bool × Manager
  toggle_with h none x = (false, x)
  toggle_with h (some d) x = if d.paused then resume h x else pause h x

  unfoldable pub toggle_pause : Text → Manager → Bool × Manager
  toggle_pause hash x = toggle_with (to_lower hash) (find_download (to_lower hash) x.downloads) x
