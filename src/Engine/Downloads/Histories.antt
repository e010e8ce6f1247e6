-- ===== src/Engine/Downloads/Histories.antt =====
-- Histories of native/engine/downloads.cpp: calls of any kind, polls, sessions and autosaves, in any
-- order.
use mathlib.Core.Path.{subst}
use rats_search_tui.Base.{sym, ℤ, Bool, List, [], ◌∷◌, Option, Text, FloatOps}
use rats_search_tui.Domain.Torrent.{Torrent}
use rats_search_tui.Engine.Downloads.Client.{ClientOps, TorrentInfo}
use rats_search_tui.Engine.Downloads.{Download}
use rats_search_tui.Engine.Downloads.Registry.{IsRegistry}
use rats_search_tui.Engine.Downloads.Lifecycle.{
  Manager, add, add_with_info, add_from_file, restore, remove, pause, resume, toggle_pause,
}
use rats_search_tui.Engine.Downloads.Poll.{tick}
use rats_search_tui.Engine.Downloads.Session.{
  start, stop, set_remove_on_done, load_session, autosave_tick,
}
use rats_search_tui.Engine.Downloads.Calls.{
  add-IsRegistry, add_with_info-IsRegistry, add_from_file-IsRegistry, restore-IsRegistry,
  remove-IsRegistry, pause-IsRegistry, resume-IsRegistry, toggle_pause-IsRegistry,
}
use rats_search_tui.Engine.Downloads.Polled.{tick-IsRegistry}
use rats_search_tui.Engine.Downloads.Loaded.{
  set_remove_on_done-IsRegistry, load_session-IsRegistry, autosave_tick_downloads,
}

pub data Event (J D : Type 0) : Type 0 where
  adds : Text → Text → Event J D
  adds_info : Torrent J → Text → Event J D
  adds_file : Option TorrentInfo → Text → Event J D
  restores : Download D → Event J D
  removes : Text → Bool → Event J D
  pauses resumes toggles : Text → Event J D
  ticks : ℤ → Event J D
  loads : List (Download D) → Event J D
  marks : Text → Bool → Event J D
  autosaves : Bool → Event J D
  starts : Text → Event J D
  stops : Event J D

module _ {J : Type 0} (float : FloatOps) (ops : ClientOps float.Double) where
  open float use {Double}

  unfoldable pub handle : Manager float ops → Event J Double → Manager float ops
  handle x (adds magnet path) = (add float ops magnet path x).1
  handle x (adds_info info path) = (add_with_info float ops info path x).1
  handle x (adds_file parsed path) = (add_from_file float ops parsed path x).1
  handle x (restores entry) = (restore float ops entry x).1
  handle x (removes hash keep) = remove float ops hash keep x
  handle x (pauses hash) = (pause float ops hash x).1
  handle x (resumes hash) = (resume float ops hash x).1
  handle x (toggles hash) = (toggle_pause float ops hash x).1
  handle x (ticks now_ms) = tick float ops now_ms x
  handle x (loads entries) = (load_session float ops entries x).1
  handle x (marks hash b) = set_remove_on_done float ops hash b x
  handle x (autosaves written) = autosave_tick float ops written x
  handle x (starts path) = start float ops path x
  handle x stops = stop float ops x

  unfoldable pub run : Manager float ops → List (Event J Double) → Manager float ops
  run x [] = x
  run x (e ∷ es) = run (handle x e) es

module _ (float : FloatOps) (ops : ClientOps float.Double) where
  open float use {Double}

  handle-IsRegistry :
      {J : Type 0} (x : Manager float ops) (e : Event J Double)
      → IsRegistry x.downloads
      → IsRegistry (handle float ops x e).downloads
  unfolding handle start stop
  handle-IsRegistry x (adds magnet path) v = add-IsRegistry float ops magnet path x v
  handle-IsRegistry x (adds_info info path) v = add_with_info-IsRegistry float ops info path x v
  handle-IsRegistry x (adds_file parsed path) v = add_from_file-IsRegistry float ops parsed path x v
  handle-IsRegistry x (restores entry) v = restore-IsRegistry float ops entry x v
  handle-IsRegistry x (removes hash keep) v = remove-IsRegistry float ops hash keep x v
  handle-IsRegistry x (pauses hash) v = pause-IsRegistry float ops hash x v
  handle-IsRegistry x (resumes hash) v = resume-IsRegistry float ops hash x v
  handle-IsRegistry x (toggles hash) v = toggle_pause-IsRegistry float ops hash x v
  handle-IsRegistry x (ticks now_ms) v = tick-IsRegistry float ops now_ms x v
  handle-IsRegistry x (loads entries) v = load_session-IsRegistry float ops entries x v
  handle-IsRegistry x (marks hash b) v = set_remove_on_done-IsRegistry float ops hash b x v
  handle-IsRegistry x (autosaves written) v =
      subst IsRegistry (sym (autosave_tick_downloads float ops written x)) v
  handle-IsRegistry x (starts path) v = v
  handle-IsRegistry x stops v = v

  -- Whatever is added, restored, removed, paused, resumed, polled, loaded from a session, marked,
  -- saved, started and stopped in whatever order, and whatever the client answers, the registry that satisfies
  -- `IsRegistry`, as an empty one does, goes on to: each download stands under its own hash in lower
  -- case, and no key stands there twice, since the keys rise.
  pub run-IsRegistry :
      {J : Type 0} (x : Manager float ops) (es : List (Event J Double))
      → IsRegistry x.downloads
      → IsRegistry (run float ops x es).downloads
  unfolding run
  run-IsRegistry x [] v = v
  run-IsRegistry x (e ∷ es) v = run-IsRegistry (handle float ops x e) es (handle-IsRegistry x e v)
