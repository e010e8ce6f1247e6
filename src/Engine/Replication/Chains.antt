-- ===== src/Engine/Replication/Chains.antt =====
-- How many timers native/engine/replication.cpp keeps in flight.
use rats_search_tui.Base.{
  All, ℕ, suc, ◌≡◌, refl, ◌∙◌, ◌⊎◌, inl, inr, true, false, List, [], ◌∷◌, map, Option, none, some,
  pick, length, Shortens, pick-Shortens, arith, ℤ,
}
use rats_search_tui.Engine.Replication.{
  Replication, Task, perform_cycle, settle, Event, enables, starts, stops, receives, fires, stop,
  set_enabled, start, notify_received, do_perform_cycle, do_settle, run_task, fire, handle, run,
}

abbrev pub timers : Replication → ℕ
timers r = length r.pending

abbrev pub IsActive : Replication → Type 0
IsActive r = (r.running ≡ true) × (r.enabled ≡ true)

fire-IsActive :
    (peers : ℕ) (picked : Option ((Task × ℤ) × List (Task × ℤ))) (r : Replication)
    → Shortens (timers r) picked
    → IsActive r
    → (timers (fire peers picked r) ≡ timers r) × IsActive (fire peers picked r)
unfolding fire run_task do_perform_cycle do_settle
fire-IsActive peers none r s a = (refl, a)
fire-IsActive peers (some ((perform_cycle, delay), rest)) r s a = ground arith
fire-IsActive peers (some ((settle, delay), rest)) r s a = ground arith

abbrev pub firings : List (ℕ × ℕ) → List Event
firings = map λ (i, peers). fires i peers

firings_keep :
    (fs : List (ℕ × ℕ)) (r : Replication) → IsActive r → timers (run r (firings fs)) ≡ timers r
unfolding run handle
firings_keep [] r a = refl
firings_keep ((i, peers) ∷ fs) r a =
    let (kept, active) = fire-IsActive peers (pick i r.pending) r (pick-Shortens i r.pending) a in
    firings_keep fs _ active ∙ kept

restart-IsActive :
    (r : Replication)
    → IsActive r
    → (timers (start (stop r)) ≡ suc (timers r)) × IsActive (start (stop r))
unfolding stop start
restart-IsActive r a = ground arith

-- Stopping and starting again leaves one timer more in flight than there was, and no timer that
-- runs afterwards takes it away: each ends by scheduling another.
pub restart_adds_timer :
    (r : Replication) (fs : List (ℕ × ℕ))
    → IsActive r
    → timers (run r (stops ∷ starts ∷ firings fs)) ≡ suc (timers r)
unfolding run handle
restart_adds_timer r fs a =
    let (added, active) = restart-IsActive r a in firings_keep fs (start (stop r)) active ∙ added

abbrev pub KeepsGoing : Event → Type 0
KeepsGoing stops = ⊥
KeepsGoing (enables false) = ⊥
KeepsGoing _ = Unit

-- no timer before the start, one after
abbrev pub HasOneTimer : Replication → Type 0
HasOneTimer r = ((r.running ≡ false) × (timers r ≡ 0)) ⊎ (IsActive r × (timers r ≡ 1))

fire_idle :
    (peers : ℕ) (picked : Option ((Task × ℤ) × List (Task × ℤ))) (r : Replication)
    → Shortens (timers r) picked
    → timers r ≡ 0
    → fire peers picked r ≡ r
unfolding fire
fire_idle peers none r s e = refl
fire_idle peers (some ((task, delay), rest)) r s e = absurd (omega arith)

handle-HasOneTimer :
    (e : Event) (r : Replication) → KeepsGoing e → HasOneTimer r → HasOneTimer (handle r e)
unfolding handle
handle-HasOneTimer (enables true) r k h = unfold set_enabled in ground arith
handle-HasOneTimer (enables false) r k h = absurd k
handle-HasOneTimer starts r k h = unfold start in ground arith
handle-HasOneTimer stops r k h = absurd k
handle-HasOneTimer receives r k h = unfold notify_received in ground arith
handle-HasOneTimer (fires i peers) r k (inl (idle, none_left)) =
    rw (fire_idle peers (pick i r.pending) r (pick-Shortens i r.pending) none_left)
      (inl (idle, none_left))
handle-HasOneTimer (fires i peers) r k (inr (active, one)) =
    let (kept, active') =
      fire-IsActive peers (pick i r.pending) r (pick-Shortens i r.pending) active in
    inr (active', kept ∙ one)

-- While the object is neither stopped nor disabled it has no timer in flight before the start and
-- exactly one from then on, whatever else happens in whatever order.
pub run-HasOneTimer :
    (es : List Event) (r : Replication) → All KeepsGoing es → HasOneTimer r → HasOneTimer (run r es)
unfolding run
run-HasOneTimer [] r k h = h
run-HasOneTimer (e ∷ es) r k h = run-HasOneTimer es (handle r e) k.1 (handle-HasOneTimer e r k.0 h)
