-- ===== src/Engine/Downloads/Session.antt =====
-- native/engine/downloads.cpp: the session, the autosave and the aggregate. Reading and writing the
-- session file is the session store's: the entries that it reads are an argument, and so is whether it
-- could write.
use rats_search_tui.Base.{
  ℕ, suc, ◌==◌, Bool, true, false, not, ◌&&◌, ◌||◌, List, [], ◌∷◌, Option, none, some, Text,
  to_lower, null, FloatOps, if◌then◌else◌,
}
use rats_search_tui.Engine.Downloads.Client.{ClientOps}
use rats_search_tui.Engine.Downloads.{
  DownloadFile, Download, is_valid_hash, find_download, put_download,
}
use rats_search_tui.Engine.Downloads.Lifecycle.{Manager, restore, pause, on_client}

module _ (float : FloatOps) (ops : ClientOps float.Double) where
  open float use {Double, lit, add}
  open ops use {State, save_resume_data, is_info_hash}

  -- The two timers that start also sets are the events of the poll and of the autosave.
  unfoldable pub start : Text → Manager float ops → Manager float ops
  start path x = record x { session_file_path = path; running = true }

  unfoldable pub stop : Manager float ops → Manager float ops
  stop x = record x { running = false }

  -- A change of the download that stands under a key, if one does.
  unfoldable pub amend :
      (Download Double → Download Double)
      → Text
      → Option (Download Double)
      → Manager float ops
      → Manager float ops
  amend f h none x = x
  amend f h (some d) x = record x { downloads = put_download h (f d) x.downloads }

  unfoldable pub set_remove_on_done : Text → Bool → Manager float ops → Manager float ops
  set_remove_on_done hash b x =
      let h = to_lower hash in
      amend (λ d. record d { remove_on_done = b }) h (find_download h x.downloads) x

  -- The selection of the files that both have, by position.
  unfoldable pub select_files :
      List (DownloadFile Double) → List (DownloadFile Double) → List (DownloadFile Double)
  select_files [] files = files
  select_files (s ∷ ss) [] = []
  select_files (s ∷ ss) (f ∷ files) = record f { selected = s.selected } ∷ select_files ss files

  -- What loadSession does with an entry that was restored.
  unfoldable pub settle_entry : Download Double → Manager float ops → Manager float ops
  settle_entry e x =
      let h = to_lower e.hash in
      let paused = if e.paused then (pause float ops e.hash x).1 else x in
      let marked = set_remove_on_done e.hash e.remove_on_done paused in
      amend (λ d. record d { files = select_files e.files d.files }) h
        (find_download h marked.downloads) marked

  unfoldable pub load_entry : Download Double → Manager float ops → Bool × Manager float ops
  load_entry e x =
      let (ok, x') = restore float ops e x in
      if not (is_valid_hash e.hash)
      then (false, x)
      else if ok
      then (true, settle_entry e x')
      else (false, x')

  -- How many were restored, and the manager.
  unfoldable pub load_session : List (Download Double) → Manager float ops → ℕ × Manager float ops
  load_session [] x = (0, x)
  load_session (e ∷ es) x =
      let (ok, x') = load_entry e x in
      let (n, x'') = load_session es x' in (if ok then suc n else n, x'')

  -- The client is asked to save the resume data of each download.
  unfoldable pub save_all : List (Text × Download Double) → Option State → Option State
  save_all [] c = c
  save_all ((h, d) ∷ m) c = save_all m (on_client float ops (save_resume_data d.hash) d.hash c)

  -- `written` is whether the session store could write the file.
  unfoldable pub save_session : Bool → Manager float ops → Bool × Manager float ops
  save_session written x = (written, record x { client = save_all x.downloads x.client })

  unfoldable pub autosave_tick : Bool → Manager float ops → Manager float ops
  autosave_tick written x =
      let (ok, x') = save_session written x in
      if x.running
        && (not (null x.session_file_path)
            && (not x.ever_saved || not (x.revision == x.last_saved_revision)))
      then if ok then record x' { last_saved_revision = x'.revision; ever_saved = true } else x'
      else x

  -- How many are active, and the sum of their speeds.
  unfoldable pub aggregate_from : ℕ × Double → List (Text × Download Double) → ℕ × Double
  aggregate_from (n, speed) [] = (n, speed)
  aggregate_from (n, speed) ((h, d) ∷ m) =
      aggregate_from
        (if d.ready && (not d.paused && not d.completed)
          then (suc n, add speed d.download_speed)
          else (n, speed))
        m

  unfoldable pub aggregate : Manager float ops → ℕ × Double
  aggregate x = aggregate_from (0, lit 0 1) x.downloads
