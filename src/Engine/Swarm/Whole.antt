-- ===== src/Engine/Swarm/Whole.antt =====
-- A whole scrape of native/engine/swarm_scraper.cpp, in a scraper with nothing else to do.
use mathlib.Core.List.{append-nil}
use rats_search_tui.Base.{
  ℕ, zero, suc, ◌≡◌, refl, false, List, [], ◌∷◌, ◌++◌, ◌-◌, Option, none, some, Text, length, pick,
  if◌then◌else◌, arith,
}
use rats_search_tui.Engine.Swarm.{
  AnnounceResult, no_result, default_trackers, Scrape, PendingRequest, Swarm, start_scrape,
  effective_trackers, admit, pruned, prune_stale_checks, find_check, request_scrape, drain,
  process_queue, heard, settle, end_task, finish_announce, deliver, run_report, handle, run,
}
use rats_search_tui.Engine.Swarm.Best.{announced}

-- A scraper that works, and that has nothing to do.
pub record IsIdle (s : Swarm) : Type 0 where
  pub working : s.stopping ≡ false
  pub no_scrapes : s.scrapes ≡ []
  pub no_reports : s.reports ≡ []
  pub no_pending : s.pending_queue ≡ []
  pub no_active : s.active_requests ≡ 0

-- The scrape that a request starts.
abbrev pub first_scrape : Text → List Text → Scrape
first_scrape hash trackers = record {
  info_hash = hash;
  best = no_result;
  remaining = length trackers;
}

pub record IsBegun (hash : Text) (trackers : List Text) (s s' : Swarm) : Type 0 where
  pub one_scrape : s'.scrapes ≡ first_scrape hash trackers ∷ []
  pub reports : s'.reports ≡ []
  pub pending : s'.pending_queue ≡ []
  pub working : s'.stopping ≡ false
  pub active : s'.active_requests ≡ 1
  pub scraped : s'.scraped ≡ s.scraped

find_pruned_none :
    (hash : Text) (now : ℕ) (m : List (Text × ℕ))
    → find_check hash m ≡ none
    → find_check hash (prune_stale_checks now m) ≡ none
unfolding find_check prune_stale_checks
find_pruned_none hash now [] e = refl
find_pruned_none hash now ((h, t) ∷ m) e = ground (arith, find_pruned_none hash now m)

pruned-IsIdle : (now : ℕ) (s : Swarm) → IsIdle s → IsIdle (pruned now s)
unfolding pruned
pruned-IsIdle now s v = ground arith

pruned_checks :
    (hash : Text) (now : ℕ) (s : Swarm)
    → find_check hash s.recent_checks ≡ none
    → find_check hash (pruned now s).recent_checks ≡ none
unfolding pruned
pruned_checks hash now s e = ground (arith, find_pruned_none hash now s.recent_checks e)

admit_begins :
    (now : ℕ) (hash : Text) (trackers : List Text) (s : Swarm)
    → IsIdle s
    → IsBegun hash trackers s (admit now hash trackers s)
unfolding admit start_scrape
admit_begins now hash trackers s v = ground arith

pruned_scraped : (now : ℕ) (s : Swarm) → (pruned now s).scraped ≡ s.scraped
unfolding pruned
pruned_scraped now s = ground arith

pub request_begins :
    (now : ℕ) (hash : Text) (s : Swarm)
    → length hash ≡ 40
    → find_check hash s.recent_checks ≡ none
    → IsIdle s
    → IsBegun hash default_trackers s (request_scrape now hash [] s)
unfolding request_scrape effective_trackers
request_begins now hash s n e v =
    let v' = pruned-IsIdle now s v in
    ground (
      arith,
      admit_begins now hash default_trackers (pruned now s) v',
      pruned_checks hash now s e,
      pruned_scraped now s,
    )

-- What the end of a task leaves as it is.
pub record IsKept (s s' : Swarm) : Type 0 where
  pub working : s'.stopping ≡ s.stopping
  pub pending : s'.pending_queue ≡ s.pending_queue
  pub active : s'.active_requests ≡ s.active_requests
  pub scraped : s'.scraped ≡ s.scraped

settle-IsKept :
    (n : ℕ) (hash : Text) (best : AnnounceResult) (rest : List Scrape) (s : Swarm)
    → IsKept s (settle n hash best rest s)
unfolding settle
settle-IsKept zero hash best rest s = ground arith
settle-IsKept (suc zero) hash best rest s = ground arith
settle-IsKept (suc (suc n)) hash best rest s = ground arith

end_task-IsKept :
    (one : Option AnnounceResult) (r : Option (Scrape × List Scrape)) (s : Swarm)
    → IsKept s (end_task one r s)
unfolding end_task
end_task-IsKept one none s = ground arith
end_task-IsKept one (some (c, rest)) s =
    settle-IsKept c.remaining c.info_hash (heard one c.best) rest s

pub finish_announce-IsKept :
    (i : ℕ) (one : Option AnnounceResult) (s : Swarm) → IsKept s (finish_announce i one s)
unfolding finish_announce
finish_announce-IsKept i one s = end_task-IsKept one (pick i s.scrapes) s

pub run-IsKept :
    (ones : List (Option AnnounceResult)) (s : Swarm) → IsKept s (run s (announced ones))
unfolding run handle
run-IsKept [] s = ground arith
run-IsKept (one ∷ ones) s =
    ground (arith, finish_announce-IsKept 0 one s, run-IsKept ones (finish_announce 0 one s))

-- The last result is delivered.
drain_nothing :
    (queue : List PendingRequest) (s : Swarm)
    → queue ≡ []
    → drain queue s ≡ record s { pending_queue = [] }
unfolding drain
drain_nothing [] s e = refl
drain_nothing (r ∷ queue) s e = absurd (cc e)

unfoldable pub told : Text → AnnounceResult → List (Text × AnnounceResult)
told hash r = if r.success then (hash, r) ∷ [] else []

process_queue-IsIdle :
    (s : Swarm)
    → s.stopping ≡ false
    → s.scrapes ≡ []
    → s.reports ≡ []
    → s.pending_queue ≡ []
    → s.active_requests ≡ 0
    → IsIdle (process_queue s) × ((process_queue s).scraped ≡ s.scraped)
unfolding process_queue
process_queue-IsIdle s w c r p a = ground (arith, drain_nothing s.pending_queue s p)

deliver-IsIdle :
    (hash : Text) (r : AnnounceResult) (s : Swarm)
    → s.stopping ≡ false
    → s.scrapes ≡ []
    → s.pending_queue ≡ []
    → s.active_requests ≡ 1
    → IsIdle (deliver (some ((hash, r), [])) s)
      × ((deliver (some ((hash, r), [])) s).scraped ≡ s.scraped ++ told hash r)
unfolding deliver told
deliver-IsIdle hash r s w c p a =
    let kept : Swarm = record s { reports = []; active_requests = s.active_requests - 1 } in
    let more : Swarm = record kept { scraped = s.scraped ++ (hash, r) ∷ [] } in
    ground (arith, process_queue-IsIdle kept, process_queue-IsIdle more, append-nil s.scraped)

pub run_report-IsIdle :
    (hash : Text) (r : AnnounceResult) (s : Swarm)
    → s.reports ≡ (hash, r) ∷ []
    → s.stopping ≡ false
    → s.scrapes ≡ []
    → s.pending_queue ≡ []
    → s.active_requests ≡ 1
    → IsIdle (run_report 0 s) × ((run_report 0 s).scraped ≡ s.scraped ++ told hash r)
unfolding run_report deliver
run_report-IsIdle hash r s e w c p a = rw e (deliver-IsIdle hash r s w c p a)
