-- ===== src/Engine/Swarm/Slots.antt =====
-- How many scrapes native/engine/swarm_scraper.cpp runs at a time.
use rats_search_tui.Base.{
  ℕ, zero, suc, ◌+◌, ◌-◌, ◌≤◌, ◌<◌, ◌≡◌, refl, ◌∙◌, ap, ◌⊎◌, true, false, List, [], ◌∷◌, ◌++◌,
  Option, none, some, Text, length, length_snoc, pick, Shortens, pick-Shortens, null, arith,
}
use rats_search_tui.Engine.Swarm.{
  AnnounceResult, no_result, Scrape, PendingRequest, Swarm, start_scrape, set_check, admit, pruned,
  request_scrape, drain, process_queue, effective_trackers, heard, settle, end_task, deliver,
  finish_announce, run_report, stop, Event, requests, announces, delivers, stops, handle, run,
}

-- Every slot in use is a scrape that is announced or whose result waits, there are at most five,
-- nothing waits for a slot while one is free, and nothing waits in a scraper that stops.
pub record HasSlots (s : Swarm) : Type 0 where
  pub counted : s.active_requests ≡ length s.scrapes + length s.reports
  pub capped : s.active_requests ≤ 5
  pub used : (null s.pending_queue ≡ true) ⊎ (s.active_requests ≡ 5)
  pub quiet : s.stopping ≡ true → null s.pending_queue ≡ true

-- What a scrape that starts changes of a scraper, in the terms of the invariant.
record IsStarted (s s' : Swarm) : Type 0 where
  one_more : length s'.scrapes ≡ suc (length s.scrapes)
  same_reports : s'.reports ≡ s.reports
  same_queue : s'.pending_queue ≡ s.pending_queue
  same_active : s'.active_requests ≡ s.active_requests
  same_stopping : s'.stopping ≡ s.stopping

start_scrape-IsStarted :
    (hash : Text) (trackers : List Text) (s : Swarm) → IsStarted s (start_scrape hash trackers s)
unfolding start_scrape
start_scrape-IsStarted hash trackers s = record {
  one_more =
      length_snoc s.scrapes
        (record { info_hash = hash; best = no_result; remaining = length trackers });
  same_reports = refl;
  same_queue = refl;
  same_active = refl;
  same_stopping = refl;
}

pruned-HasSlots : (now : ℕ) (s : Swarm) → HasSlots s → HasSlots (pruned now s)
unfolding pruned
pruned-HasSlots now s v = ground arith

-- The counts of a scraper in which one more slot is taken.
taken-HasSlots :
    (s s' : Swarm)
    → IsStarted s s'
    → s.active_requests ≡ suc (length s.scrapes + length s.reports)
    → s.active_requests ≤ 5
    → null s.pending_queue ≡ true
    → HasSlots s'
taken-HasSlots s s' i e le p = ground arith

admit-HasSlots :
    (now : ℕ) (hash : Text) (trackers : List Text) (s : Swarm)
    → s.stopping ≡ false
    → HasSlots s
    → HasSlots (admit now hash trackers s)
unfolding admit
admit-HasSlots now hash trackers s e v =
    let marked : Swarm = record s {
      recent_checks = set_check hash now s.recent_checks;
      active_requests = suc s.active_requests;
    } in
    ground (arith, start_scrape-IsStarted hash trackers marked, v, e)

drain-HasSlots :
    (queue : List PendingRequest) (s : Swarm)
    → s.stopping ≡ false
    → s.active_requests ≡ length s.scrapes + length s.reports
    → s.active_requests ≤ 5
    → HasSlots (drain queue s)
unfolding drain
drain-HasSlots [] s e c le = ground arith
drain-HasSlots (r ∷ queue) s e c le =
    let taken : Swarm = record s { active_requests = suc s.active_requests } in
    let begun = start_scrape-IsStarted r.info_hash r.trackers taken in
    let rest = λ (lt : s.active_requests < 5).
      drain-HasSlots queue (start_scrape r.info_hash r.trackers taken) (begun.same_stopping ∙ e)
        (omega (arith, begun.one_more, begun.same_active, ap length begun.same_reports))
        (omega (arith, begun.same_active)) in
    ground (arith, rest, e)

process_queue-HasSlots :
    (s : Swarm)
    → s.active_requests ≡ length s.scrapes + length s.reports
    → s.active_requests ≤ 5
    → (s.stopping ≡ true → null s.pending_queue ≡ true)
    → HasSlots (process_queue s)
unfolding process_queue
process_queue-HasSlots s c le q = ground (arith, drain-HasSlots s.pending_queue s)

pruned_keeps_stopping : (now : ℕ) (s : Swarm) → (pruned now s).stopping ≡ s.stopping
unfolding pruned
pruned_keeps_stopping now s = ground arith

request_scrape-HasSlots :
    (now : ℕ) (hash : Text) (trackers : List Text) (s : Swarm)
    → HasSlots s
    → HasSlots (request_scrape now hash trackers s)
unfolding request_scrape
request_scrape-HasSlots now hash trackers s v =
    let v' = pruned-HasSlots now s v in
    let e' = pruned_keeps_stopping now s in
    let admitted = λ (e : s.stopping ≡ false).
      admit-HasSlots now hash (effective_trackers trackers) (pruned now s) (e' ∙ e) v' in
    ground (arith, admitted, v, v')

-- A scrape of which one more task has ended is still there, or its result waits.
settle-HasSlots :
    (n : ℕ) (hash : Text) (best : AnnounceResult) (rest : List Scrape) (s : Swarm)
    → length s.scrapes ≡ suc (length rest)
    → HasSlots s
    → HasSlots (settle n hash best rest s)
unfolding settle
settle-HasSlots zero hash best rest s e v = v
settle-HasSlots (suc zero) hash best rest s e v = ground (arith, length_snoc s.reports (hash, best))
settle-HasSlots (suc (suc n)) hash best rest s e v = ground arith

end_task-HasSlots :
    (one : Option AnnounceResult) (r : Option (Scrape × List Scrape)) (s : Swarm)
    → Shortens (length s.scrapes) r
    → HasSlots s
    → HasSlots (end_task one r s)
unfolding end_task
end_task-HasSlots one none s e v = v
end_task-HasSlots one (some (c, rest)) s e v =
    settle-HasSlots c.remaining c.info_hash (heard one c.best) rest s e v

deliver-HasSlots :
    (r : Option ((Text × AnnounceResult) × List (Text × AnnounceResult))) (s : Swarm)
    → Shortens (length s.reports) r
    → HasSlots s
    → HasSlots (deliver r s)
unfolding deliver
deliver-HasSlots none s e v = v
deliver-HasSlots (some ((hash, best), rest)) s e v =
    let kept : Swarm = record s { reports = rest; active_requests = s.active_requests - 1 } in
    let told : Swarm = record kept { scraped = s.scraped ++ (hash, best) ∷ [] } in
    ground (arith, process_queue-HasSlots kept, process_queue-HasSlots told, v)

handle-HasSlots : (s : Swarm) (e : Event) → HasSlots s → HasSlots (handle s e)
unfolding handle finish_announce run_report stop
handle-HasSlots s (requests now hash trackers) v = request_scrape-HasSlots now hash trackers s v
handle-HasSlots s (announces i one) v =
    end_task-HasSlots one (pick i s.scrapes) s (pick-Shortens i s.scrapes) v
handle-HasSlots s (delivers i) v =
    deliver-HasSlots (pick i s.reports) s (pick-Shortens i s.reports) v
handle-HasSlots s stops v = ground arith

-- Whatever is requested, announced, delivered and stopped in whatever order, a scraper that
-- satisfies `HasSlots`, as a new one does, goes on to: the slots in use are the scrapes that are
-- announced and those whose result waits for the engine loop, there are at most five of them, a
-- request waits only while five are in use, and none waits in a scraper that stops.
pub run-HasSlots : (s : Swarm) (es : List Event) → HasSlots s → HasSlots (run s es)
unfolding run
run-HasSlots s [] v = v
run-HasSlots s (e ∷ es) v = run-HasSlots (handle s e) es (handle-HasSlots s e v)
