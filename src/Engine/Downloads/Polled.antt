-- ===== src/Engine/Downloads/Polled.antt =====
-- What a poll of native/engine/downloads.cpp keeps of the registry.
use mathlib.Core.Path.{subst}
use rats_search_tui.Base.{
  ℕ, ◌≡◌, refl, sym, ◌∙◌, ℤ, Bool, true, false, ◌&&◌, List, [], ◌∷◌, Option, none, some, Text, All,
  FloatOps, Bool-cases, inl, inr, arith, if◌then◌else◌,
}
use rats_search_tui.Engine.Downloads.Client.{ClientOps, TorrentStatus}
use rats_search_tui.Engine.Downloads.{Download}
use rats_search_tui.Engine.Downloads.Registry.{IsRegistry, Precedes}
use rats_search_tui.Engine.Downloads.Lifecycle.{Manager, apply_snapshot}
use rats_search_tui.Engine.Downloads.Poll.{
  compute_speed, refreshed, finished, poll_one, poll_all, announce, remove_all, flush_transitions,
  tick_with, tick,
}
use rats_search_tui.Engine.Downloads.Calls.{remove-IsRegistry}

module _ (float : FloatOps) (ops : ClientOps float.Double) where
  open float use {Double}

  poll_one_hash :
      (now_ms : ℤ) (st : TorrentStatus Double) (d : Download Double)
      → (poll_one float ops now_ms st d).1.hash ≡ d.hash
  unfolding poll_one finished refreshed compute_speed apply_snapshot
  poll_one_hash now_ms st d = ground arith

  poll_all-precede :
      (k : Text) (now_ms : ℤ) (c : ops.State) (m : List (Text × Download Double)) (n : ℕ)
      → All (Precedes k) m
      → All (Precedes k) (poll_all float ops now_ms c m n).1.0
  unfolding poll_all
  poll_all-precede k now_ms c [] n a = tt
  poll_all-precede k now_ms c ((h, d) ∷ m) n a =
      let st = ops.torrent_status h c in
      elim (Bool-cases (ops.is_info_hash h && st.exists)) [
        | inl q ↦ rw q (a.0, poll_all-precede k now_ms c m _ a.1)
        | inr q ↦ rw q (a.0, poll_all-precede k now_ms c m _ a.1)
      ]

  poll_all-IsRegistry :
      (now_ms : ℤ) (c : ops.State) (m : List (Text × Download Double)) (n : ℕ)
      → IsRegistry m
      → IsRegistry (poll_all float ops now_ms c m n).1.0
  unfolding poll_all
  poll_all-IsRegistry now_ms c [] n v = tt
  poll_all-IsRegistry now_ms c ((h, d) ∷ m) n v =
      let st = ops.torrent_status h c in
      elim (Bool-cases (ops.is_info_hash h && st.exists)) [
        | inl q ↦ rw q (
          (poll_one_hash now_ms st d ∙ v.0.0, v.0.1),
          (poll_all-precede h now_ms c m _ v.1.0, poll_all-IsRegistry now_ms c m _ v.1.1),
        )
        | inr q ↦
            rw q
              (v.0, (poll_all-precede h now_ms c m _ v.1.0, poll_all-IsRegistry now_ms c m _ v.1.1))
      ]

  announce_downloads :
      (hs : List Text) (x : Manager float ops) → (announce float ops hs x).downloads ≡ x.downloads
  unfolding announce
  announce_downloads [] x = refl
  announce_downloads (h ∷ hs) x = announce_downloads hs _

  remove_all-IsRegistry :
      (hs : List Text) (x : Manager float ops)
      → IsRegistry x.downloads
      → IsRegistry (remove_all float ops hs x).downloads
  unfolding remove_all
  remove_all-IsRegistry [] x v = v
  remove_all-IsRegistry (h ∷ hs) x v =
      remove_all-IsRegistry hs _ (remove-IsRegistry float ops h false x v)

  tick_with-IsRegistry :
      (now_ms : ℤ) (c : Option ops.State) (x : Manager float ops)
      → IsRegistry x.downloads
      → IsRegistry (tick_with float ops now_ms c x).downloads
  unfolding tick_with flush_transitions
  tick_with-IsRegistry now_ms none x v = v
  tick_with-IsRegistry now_ms (some c) x v =
      let r = poll_all float ops now_ms c x.downloads x.revision in
      let x' : Manager float ops = record x { downloads = r.1.0; revision = r.1.1 } in
      remove_all-IsRegistry r.0.to_remove (announce float ops r.0.newly_completed x') (
        subst IsRegistry (sym (announce_downloads r.0.newly_completed x'))
          (poll_all-IsRegistry now_ms c x.downloads x.revision v))

  pub if-IsRegistry :
      (b : Bool) (x y : Manager float ops)
      → IsRegistry x.downloads
      → IsRegistry y.downloads
      → IsRegistry (if b then x else y).downloads
  if-IsRegistry true x y v w = v
  if-IsRegistry false x y v w = w

  pub tick-IsRegistry :
      (now_ms : ℤ) (x : Manager float ops)
      → IsRegistry x.downloads
      → IsRegistry (tick float ops now_ms x).downloads
  unfolding tick
  tick-IsRegistry now_ms x v =
      if-IsRegistry x.running (tick_with float ops now_ms x.client x) x
        (tick_with-IsRegistry now_ms x.client x v) v
