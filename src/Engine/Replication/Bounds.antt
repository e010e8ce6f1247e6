-- ===== src/Engine/Replication/Bounds.antt =====
-- The delay between two cycles of native/engine/replication.cpp stays between 5 and 60 seconds.
use rats_search_tui.Base.{
  ℕ, suc, ◌+◌, ◌*◌, ◌^◌, ◌≤◌, ◌<◌, ℤ, pos, pos_part, neg_part, ◌+ℤ◌, wrap32, ◌≤ℤ◌, wrap32_small,
  ◌≡◌, List, [], ◌∷◌, Option, none, some, pick, arith,
}
use rats_search_tui.Engine.Replication.{
  Replication, Task, perform_cycle, settle, Event, enables, starts, stops, receives, fires, init,
  stop, set_enabled, start, notify_received, do_perform_cycle, next_interval, do_settle, run_task,
  fire, handle, run,
}

abbrev pub IsDelay : ℤ → Type 0
IsDelay n = (pos 5000 ≤ℤ n) × (n ≤ℤ pos 60000)

-- Where the product does not overflow.
next_interval-IsDelay : (n : ℤ) → pos_part n * 600 < 2 ^ 31 → IsDelay (next_interval n)
unfolding next_interval
next_interval-IsDelay n h = rw (wrap32_small (pos_part n * 600) h) (ground arith)

-- At most `n` torrents were received in this cycle.
pub record Inv (n : ℕ) (r : Replication) : Type 0 where
  pub delay : IsDelay r.interval
  pub counted : pos_part r.received_this_cycle ≤ n
  pub not_negative : neg_part r.received_this_cycle ≡ 0

abbrev pub receipts : List Event → ℕ
receipts [] = 0
receipts (receives ∷ es) = suc (receipts es)
receipts (_ ∷ es) = receipts es

module _ (n : ℕ) (small : n * 600 < 2 ^ 31) where
  do_settle-Inv : (r : Replication) → Inv n r → Inv n (do_settle r)
  unfolding do_settle
  do_settle-Inv r v = ground (arith, next_interval-IsDelay r.received_this_cycle)

  do_perform_cycle-Inv : (peers : ℕ) (r : Replication) → Inv n r → Inv n (do_perform_cycle peers r)
  unfolding do_perform_cycle
  do_perform_cycle-Inv peers r v = ground arith

  fire-Inv :
      (peers : ℕ) (picked : Option ((Task × ℤ) × List (Task × ℤ))) (r : Replication)
      → Inv n r
      → Inv n (fire peers picked r)
  unfolding fire run_task
  fire-Inv peers none r v = v
  fire-Inv peers (some ((perform_cycle, delay), rest)) r v =
      do_perform_cycle-Inv peers _
        (record { delay = v.delay; counted = v.counted; not_negative = v.not_negative })
  fire-Inv peers (some ((settle, delay), rest)) r v =
      do_settle-Inv _
        (record { delay = v.delay; counted = v.counted; not_negative = v.not_negative })

abbrev added : Event → ℕ
added receives = 1
added _ = 0

handle-Inv :
    (n : ℕ) (e : Event) (r : Replication)
    → n * 600 < 2 ^ 31
    → Inv n r
    → Inv (n + added e) (handle r e)
unfolding handle
handle-Inv n (enables b) r s v = unfold set_enabled in ground arith
handle-Inv n starts r s v = unfold start in ground arith
handle-Inv n stops r s v = unfold stop in ground arith
handle-Inv n receives r s v = unfold notify_received in unfold wrap32 in unfold ◌+ℤ◌ in ground arith
handle-Inv n (fires i peers) r s v =
    let kept = fire-Inv n s peers (pick i r.pending) r v in
    record { delay = kept.delay; counted = omega arith; not_negative = kept.not_negative }

receipts-cons : (e : Event) (es : List Event) → receipts (e ∷ es) ≡ added e + receipts es
receipts-cons receives es = omega arith
receipts-cons _ es = omega arith

run-Inv :
    (n : ℕ) (es : List Event) (r : Replication)
    → (n + receipts es) * 600 < 2 ^ 31
    → Inv n r
    → Inv (n + receipts es) (run r es)
unfolding run
run-Inv n [] r s v = record {
  delay = v.delay;
  counted = omega arith;
  not_negative = v.not_negative;
}
run-Inv n (e ∷ es) r s v =
    let total : n + receipts (e ∷ es) ≡ n + added e + receipts es =
      omega (arith, receipts-cons e es) in
    rw total
      (run-Inv (n + added e) es (handle r e) (omega arith) (handle-Inv n e r (omega arith) v))

-- After any history of calls and timers in which at most 3,579,139 torrents were received, the
-- delay between two cycles lies between 5 and 60 seconds.
pub run-IsDelay : (es : List Event) → receipts es * 600 < 2 ^ 31 → IsDelay (run init es).interval
run-IsDelay es s = (run-Inv 0 es init (omega arith) (unfold init in omega arith)).delay
