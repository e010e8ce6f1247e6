-- ===== src/Engine/Downloads/Completion.antt =====
-- How often a download is announced as completed by the polls of native/engine/downloads.cpp.
use rats_search_tui.Base.{
  ℕ, suc, ◌≤◌, ◌≡◌, ℤ, true, false, List, [], ◌∷◌, FloatOps, arith, if◌then◌else◌,
}
use rats_search_tui.Engine.Downloads.Client.{ClientOps, TorrentStatus}
use rats_search_tui.Engine.Downloads.{Download}
use rats_search_tui.Engine.Downloads.Lifecycle.{apply_snapshot}
use rats_search_tui.Engine.Downloads.Poll.{compute_speed, refreshed, is_done, finished, poll_one}

module _ (float : FloatOps) (ops : ClientOps float.Double) where
  open float use {Double}

  -- How many of the polls, each with its time and the client's status, announce the download.
  abbrev pub announced : List (ℤ × TorrentStatus Double) → Download Double → ℕ
  announced [] d = 0
  announced ((now_ms, st) ∷ polls) d =
      let rest = announced polls (poll_one float ops now_ms st d).1 in
      if is_done float ops st d then suc rest else rest

  poll_one_ready :
      (now_ms : ℤ) (st : TorrentStatus Double) (d : Download Double)
      → d.ready ≡ true
      → ((poll_one float ops now_ms st d).1.ready ≡ true)
        × ((poll_one float ops now_ms st d).1.completed
            ≡ (if is_done float ops st d then true else d.completed))
  unfolding poll_one finished refreshed compute_speed
  poll_one_ready now_ms st d r = ground arith

  -- A download whose metadata are known is announced as completed at most once over any sequence of
  -- polls, whatever the client says, and never if it was completed before.
  pub announced_once :
      (polls : List (ℤ × TorrentStatus Double)) (d : Download Double)
      → d.ready ≡ true
      → announced polls d ≤ (if d.completed then 0 else 1)
  announced_once [] d r = omega arith
  announced_once ((now_ms, st) ∷ polls) d r =
      let d' = (poll_one float ops now_ms st d).1 in
      let (r', c') = poll_one_ready now_ms st d r in ground (arith, announced_once polls d' r', c')

  late_metadata_resets :
      (now_ms : ℤ) (st : TorrentStatus Double) (d : Download Double)
      → d.ready ≡ false
      → d.completed ≡ true
      → st.has_metadata ≡ true
      → st.is_complete ≡ false
      → (poll_one float ops now_ms st d).1.completed ≡ false
  unfolding poll_one finished refreshed compute_speed apply_snapshot
  late_metadata_resets now_ms st d r c m i = ground arith

  -- A download that was restored as completed is announced once more, where its metadata come with a
  -- later poll while the client has not yet rechecked its files, and the next poll finds it complete.
  pub late_metadata_announces :
      (now_ms later_ms : ℤ) (st later : TorrentStatus Double) (d : Download Double)
      → d.ready ≡ false
      → d.completed ≡ true
      → st.has_metadata ≡ true
      → st.is_complete ≡ false
      → later.is_complete ≡ true
      → announced ((now_ms, st) ∷ (later_ms, later) ∷ []) d ≡ 1
  late_metadata_announces now_ms later_ms st later d r c m i l =
      ground (arith, late_metadata_resets now_ms st d r c m i)
