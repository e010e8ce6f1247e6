-- ===== src/Engine/Swarm/Cooldown.antt =====
-- The cooldown of a hash in native/engine/swarm_scraper.cpp.
use rats_search_tui.Base.{
  ℕ, ◌-◌, ◌++◌, zero, suc, ◌<◌, ◌≡◌, refl, ◌⊎◌, Bool-cases, inl, inr, pick, All, false, List, [],
  ◌∷◌, Option, none, some, Text, eq_text, eq_text→eq, eq_text_refl, arith,
}
use rats_search_tui.Engine.Swarm.{
  AnnounceResult, Scrape, PendingRequest, Swarm, drain, process_queue, heard, settle, end_task,
  deliver, finish_announce, run_report, stop, effective_trackers, Event, requests, announces,
  delivers, stops, handle, run, set_check, find_check, prune_stale_checks, pruned, admit,
  start_scrape, request_scrape, elapsed_secs,
}

-- The time that was set for a hash is found.
find_set :
    (hash : Text) (now : ℕ) (m : List (Text × ℕ))
    → find_check hash (set_check hash now m) ≡ some now
unfolding find_check set_check
find_set hash now [] = ground (arith, eq_text_refl hash)
find_set hash now ((h, t) ∷ m) = ground (arith, eq_text_refl hash, find_set hash now m)

-- What is young enough outlives the pruning.
find_pruned :
    (hash : Text) (now t : ℕ) (m : List (Text × ℕ))
    → elapsed_secs now t < 300
    → find_check hash m ≡ some t
    → find_check hash (prune_stale_checks now m) ≡ some t
unfolding find_check prune_stale_checks
find_pruned hash now t [] lt e = e
find_pruned hash now t ((h, u) ∷ m) lt e = ground (arith, find_pruned hash now t m lt)

find_other :
    (hash other : Text) (now : ℕ) (m : List (Text × ℕ))
    → eq_text other hash ≡ false
    → find_check hash (set_check other now m) ≡ find_check hash m
unfolding find_check set_check
find_other hash other now [] e = ground arith
find_other hash other now ((h, t) ∷ m) e =
    ground (arith, find_other hash other now m e, eq_text→eq h other)

-- The entry of a hash that was checked at a time.
abbrev Checked : Text → ℕ → Swarm → Type 0
Checked hash since s = find_check hash s.recent_checks ≡ some since

-- A request that comes less than the interval after a time.
abbrev pub IsYoung : ℕ → Event → Type 0
IsYoung since (requests now hash trackers) = elapsed_secs now since < 300
IsYoung since (announces i one) = Unit
IsYoung since (delivers i) = Unit
IsYoung since stops = Unit

pruned-Checked :
    (hash : Text) (since now : ℕ) (s : Swarm)
    → elapsed_secs now since < 300
    → Checked hash since s
    → Checked hash since (pruned now s)
unfolding pruned
pruned-Checked hash since now s lt c =
    ground (arith, find_pruned hash now since s.recent_checks lt c)

admit_checks :
    (now : ℕ) (hash : Text) (trackers : List Text) (s : Swarm)
    → (admit now hash trackers s).recent_checks ≡ set_check hash now s.recent_checks
unfolding admit start_scrape
admit_checks now hash trackers s = ground arith

-- A request for a hash that was checked only prunes.
request_scrape_cools :
    (hash : Text) (since now : ℕ) (trackers : List Text) (s : Swarm)
    → elapsed_secs now since < 300
    → Checked hash since s
    → (request_scrape now hash trackers s ≡ s) ⊎ (request_scrape now hash trackers s ≡ pruned now s)
unfolding request_scrape
request_scrape_cools hash since now trackers s lt c =
    ground (arith, pruned-Checked hash since now s lt c)

request_scrape-Checked :
    (hash other : Text) (since now : ℕ) (trackers : List Text) (s : Swarm)
    → elapsed_secs now since < 300
    → Checked hash since s
    → eq_text other hash ≡ false
    → Checked hash since (request_scrape now other trackers s)
unfolding request_scrape
request_scrape-Checked hash other since now trackers s lt c e =
    let kept = pruned-Checked hash since now s lt c in
    let ts = effective_trackers trackers in
    ground (
      arith,
      kept,
      admit_checks now other ts (pruned now s),
      find_other hash other now (pruned now s).recent_checks e,
    )

drain_checks :
    (queue : List PendingRequest) (s : Swarm) → (drain queue s).recent_checks ≡ s.recent_checks
unfolding drain start_scrape
drain_checks [] s = refl
drain_checks (r ∷ queue) s = ground (
  arith,
  drain_checks queue
      (start_scrape r.info_hash r.trackers (record s { active_requests = suc s.active_requests })),
)

settle_checks :
    (n : ℕ) (hash : Text) (best : AnnounceResult) (rest : List Scrape) (s : Swarm)
    → (settle n hash best rest s).recent_checks ≡ s.recent_checks
unfolding settle
settle_checks zero hash best rest s = refl
settle_checks (suc zero) hash best rest s = refl
settle_checks (suc (suc n)) hash best rest s = refl

end_task_checks :
    (one : Option AnnounceResult) (r : Option (Scrape × List Scrape)) (s : Swarm)
    → (end_task one r s).recent_checks ≡ s.recent_checks
unfolding end_task
end_task_checks one none s = refl
end_task_checks one (some (c, rest)) s =
    settle_checks c.remaining c.info_hash (heard one c.best) rest s

process_queue_checks : (s : Swarm) → (process_queue s).recent_checks ≡ s.recent_checks
unfolding process_queue
process_queue_checks s = ground (arith, drain_checks s.pending_queue s)

deliver_checks :
    (r : Option ((Text × AnnounceResult) × List (Text × AnnounceResult))) (s : Swarm)
    → (deliver r s).recent_checks ≡ s.recent_checks
unfolding deliver
deliver_checks none s = refl
deliver_checks (some ((hash, best), rest)) s =
    let kept : Swarm = record s { reports = rest; active_requests = s.active_requests - 1 } in
    let told : Swarm = record kept { scraped = s.scraped ++ (hash, best) ∷ [] } in
    ground (arith, process_queue_checks kept, process_queue_checks told)

same_hash-Checked :
    (hash : Text) (since now : ℕ) (trackers : List Text) (s : Swarm)
    → elapsed_secs now since < 300
    → Checked hash since s
    → Checked hash since (request_scrape now hash trackers s)
same_hash-Checked hash since now trackers s lt c =
    elim (request_scrape_cools hash since now trackers s lt c) [
      | inl e ↦ rw e c
      | inr e ↦ rw e (pruned-Checked hash since now s lt c)
    ]

requests-Checked :
    (hash other : Text) (since now : ℕ) (trackers : List Text) (s : Swarm)
    → elapsed_secs now since < 300
    → Checked hash since s
    → Checked hash since (request_scrape now other trackers s)
requests-Checked hash other since now trackers s lt c = elim (Bool-cases (eq_text other hash)) [
  | inl e ↦ rw (eq_text→eq other hash e) (same_hash-Checked hash since now trackers s lt c)
  | inr e ↦ request_scrape-Checked hash other since now trackers s lt c e
]

handle-Checked :
    (hash : Text) (since : ℕ) (s : Swarm) (e : Event)
    → IsYoung since e
    → Checked hash since s
    → Checked hash since (handle s e)
unfolding handle finish_announce run_report stop
handle-Checked hash since s (requests now other trackers) y c =
    requests-Checked hash other since now trackers s y c
handle-Checked hash since s (announces i one) y c = rw (end_task_checks one (pick i s.scrapes) s) c
handle-Checked hash since s (delivers i) y c = rw (deliver_checks (pick i s.reports) s) c
handle-Checked hash since s stops y c = c

run-Checked :
    (hash : Text) (since : ℕ) (s : Swarm) (es : List Event)
    → All (IsYoung since) es
    → Checked hash since s
    → Checked hash since (run s es)
unfolding run
run-Checked hash since s [] y c = c
run-Checked hash since s (e ∷ es) y c =
    run-Checked hash since (handle s e) es y.1 (handle-Checked hash since s e y.0 c)

-- What a scraper works on.
abbrev pub SameWork : Swarm → Swarm → Type 0
SameWork s s' =
    (s'.scrapes ≡ s.scrapes)
    × (s'.pending_queue ≡ s.pending_queue)
    × (s'.active_requests ≡ s.active_requests)
    × (s'.reports ≡ s.reports)

pruned-SameWork : (now : ℕ) (s : Swarm) → SameWork s (pruned now s)
unfolding pruned
pruned-SameWork now s = ground arith

-- The acceptance of a request sets the time that the cooldown counts from.
admit-Checked :
    (now : ℕ) (hash : Text) (trackers : List Text) (s : Swarm)
    → Checked hash now (admit now hash trackers s)
admit-Checked now hash trackers s =
    rw (admit_checks now hash trackers s) (find_set hash now s.recent_checks)

-- After a request for a hash was accepted, and whatever is requested for it and for others,
-- announced, delivered and stopped while less than 300 seconds have passed, a request for it within
-- those 300 seconds starts and queues nothing, and frees no slot.
pub request_within_cooldown :
    (hash : Text) (since now : ℕ) (first again : List Text) (s : Swarm) (es : List Event)
    → All (IsYoung since) es
    → elapsed_secs now since < 300
    → let s' = run (admit since hash first s) es in SameWork s' (request_scrape now hash again s')
request_within_cooldown hash since now first again s es y lt =
    let s' = run (admit since hash first s) es in
    let c =
      run-Checked hash since (admit since hash first s) es y (admit-Checked since hash first s) in
    elim (request_scrape_cools hash since now again s' lt c) [
      | inl e ↦ rw e (refl, refl, refl, refl)
      | inr e ↦ rw e (pruned-SameWork now s')
    ]
