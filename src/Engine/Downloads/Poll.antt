-- ===== src/Engine/Downloads/Poll.antt =====
-- native/engine/downloads.cpp: the poll that runs every second while the manager runs.
use rats_search_tui.Base.{
  ℕ, ℤ, pos, ◌-ℤ◌, wrap32, wrap64, ltb_ℤ, eq_ℤ, Bool, true, false, not, ◌&&◌, List, [], ◌∷◌, ◌++◌,
  Option, none, some, Text, FloatOps, if◌then◌else◌,
}
use rats_search_tui.Engine.Downloads.Client.{ClientOps, TorrentStatus}
use rats_search_tui.Engine.Downloads.{eq_bool, Download, Progress, next_revision, find_download}
use rats_search_tui.Engine.Downloads.Lifecycle.{Manager, apply_snapshot, remove}

pub record Transitions : Type 0 where
  pub newly_ready : List Text
  pub newly_completed : List Text
  pub to_remove : List Text

module _ (float : FloatOps) (ops : ClientOps float.Double) where
  open float use {Double, of_int, to_int, lit, sub, div, less, equal}
  open ops use {State, torrent_status, is_info_hash}

  unfoldable pub compute_speed : ℤ → Download Double → Download Double
  compute_speed now_ms d =
      let delta = wrap64 (d.downloaded_bytes -ℤ d.last_sampled_bytes) in
      let seconds = div (of_int (wrap64 (now_ms -ℤ d.last_sampled_ms))) (lit 10000 1) in
      record d {
        download_speed =
            if ltb_ℤ (pos 0) d.last_sampled_ms && ltb_ℤ d.last_sampled_ms now_ms
            then if ltb_ℤ (pos 0) delta then div (of_int delta) seconds else lit 0 1
            else d.download_speed;
        last_sampled_bytes = d.downloaded_bytes;
        last_sampled_ms = now_ms;
      }

  unfoldable pub progress_json : Download Double → Progress Double
  progress_json d = record {
    downloaded = d.downloaded_bytes;
    total = d.total_size;
    progress = d.progress;
    download_speed = to_int d.download_speed;
    paused = d.paused;
    completed = d.completed;
    remove_on_done = d.remove_on_done;
    time_remaining =
        if less (lit 0 1) d.download_speed && ltb_ℤ d.downloaded_bytes d.total_size
        then to_int (div (of_int (wrap64 (d.total_size -ℤ d.downloaded_bytes))) d.download_speed)
        else pos 0;
  }

  -- The equality of the two JSON objects, the first of which is null before the first poll.
  unfoldable pub is_same_progress : Option (Progress Double) → Progress Double → Bool
  is_same_progress none q = false
  is_same_progress (some p) q =
      eq_ℤ p.downloaded q.downloaded
      && (eq_ℤ p.total q.total
          && (equal p.progress q.progress
              && (eq_ℤ p.download_speed q.download_speed
                  && (eq_bool p.paused q.paused
                      && (eq_bool p.completed q.completed
                          && (eq_bool p.remove_on_done q.remove_on_done
                              && eq_ℤ p.time_remaining q.time_remaining))))))

  -- The live counters, or the details when the metadata came.
  unfoldable pub refreshed : ℤ → TorrentStatus Double → Download Double → Download Double
  refreshed now_ms st d =
      let counted : Download Double = record d {
        downloaded_bytes = wrap64 st.downloaded;
        peers_connected = wrap32 st.num_peers;
        progress = st.progress;
        total_size =
            if eq_ℤ d.total_size (pos 0) && ltb_ℤ (pos 0) st.total_size
            then wrap64 st.total_size
            else d.total_size;
      } in
      compute_speed now_ms
        (if st.has_metadata && not d.ready then apply_snapshot float ops st d else counted)

  -- Whether a poll finds the download newly complete.
  abbrev pub is_done : TorrentStatus Double → Download Double → Bool
  is_done st d = st.is_complete && not d.completed

  unfoldable pub finished :
      TorrentStatus Double → Download Double → Download Double → Download Double
  finished st before d =
      if is_done st before
      then record d { completed = true; progress = lit 10 1; download_speed = lit 0 1 }
      else d

  -- A round of pollStatus for one download: whether what is displayed changed, and the download.
  unfoldable pub poll_one : ℤ → TorrentStatus Double → Download Double → Bool × Download Double
  poll_one now_ms st d =
      let d' = finished st d (refreshed now_ms st d) in
      let p = progress_json d' in
      if is_same_progress d'.last_progress p
      then (false, d')
      else (true, record d' { last_progress = some p })

  abbrev pub also : Bool → Text → List Text → List Text
  also b h hs = if b then h ∷ hs else hs

  unfoldable pub poll_all :
      ℤ
      → State
      → List (Text × Download Double)
      → ℕ
      → Transitions × (List (Text × Download Double) × ℕ)
  poll_all now_ms c [] revision =
      (record { newly_ready = []; newly_completed = []; to_remove = [] }, ([], revision))
  poll_all now_ms c ((h, d) ∷ m) revision =
      let st = torrent_status h c in
      let (changed, d') = poll_one now_ms st d in
      let tracked = is_info_hash h && st.exists in
      let (t, (m', revision')) =
        poll_all now_ms c m (if tracked && changed then next_revision revision else revision) in
      let t' : Transitions = record {
        newly_ready = also (st.has_metadata && not d.ready) h t.newly_ready;
        newly_completed = also (is_done st d) h t.newly_completed;
        to_remove = also (is_done st d && d.remove_on_done) h t.to_remove;
      } in
      if tracked then (t', ((h, d') ∷ m', revision')) else (t, ((h, d) ∷ m', revision'))

  -- The name that a completion is announced with.
  unfoldable pub name_of : Text → Manager float ops → Text
  name_of h x = elim (find_download h x.downloads) [ none ↦ h | some d ↦ d.name ]

  unfoldable pub announce : List Text → Manager float ops → Manager float ops
  announce [] x = x
  announce (h ∷ hs) x =
      announce hs (record x { completions = x.completions ++ (h, name_of h x) ∷ [] })

  unfoldable pub remove_all : List Text → Manager float ops → Manager float ops
  remove_all [] x = x
  remove_all (h ∷ hs) x = remove_all hs (remove float ops h false x)

  unfoldable pub flush_transitions : Transitions → Manager float ops → Manager float ops
  flush_transitions t x = remove_all t.to_remove (announce t.newly_completed x)

  unfoldable pub tick_with : ℤ → Option State → Manager float ops → Manager float ops
  tick_with now_ms none x = x
  tick_with now_ms (some c) x =
      let (t, (m, revision)) = poll_all now_ms c x.downloads x.revision in
      flush_transitions t (record x { downloads = m; revision = revision })

  unfoldable pub tick : ℤ → Manager float ops → Manager float ops
  tick now_ms x = if x.running then tick_with now_ms x.client x else x
