-- ===== src/Engine/Swarm.antt =====
-- native/engine/swarm_scraper.h and swarm_scraper.cpp: the scrapes of swarm counts from trackers.
-- Time is counted in nanoseconds. `scrapes` holds, for each hash that is being scraped, the shared
-- state of its announces; `reports` the results that were posted to the engine loop and wait there.
-- The announces are the environment's: which tracker answers when, and what, is an event.
pub mod Slots
pub mod Best
pub mod Cooldown
pub mod Whole
mod Tests
use rats_search_tui.Base.{
  ℕ, zero, suc, ◌+◌, ◌-◌, ◌*◌, ◌/◌, ℤ, pos, ltb_ℤ, Bool, true, false, not, ◌&&◌, ◌||◌, List, [],
  ◌∷◌, ◌++◌, Option, none, some, Text, codes, eq_text, null, length, leb, ltb, pick, ◌==◌,
  if◌then◌else◌,
}

pub record AnnounceResult : Type 0 where
  pub seeders : ℤ
  pub leechers : ℤ
  pub completed : ℤ
  pub success : Bool

-- ScrapeState with the hash that it is for
pub record Scrape : Type 0 where
  pub info_hash : Text
  pub best : AnnounceResult
  pub remaining : ℕ

pub record PendingRequest : Type 0 where
  pub info_hash : Text
  pub trackers : List Text

pub record Swarm : Type 0 where
  pub recent_checks : List (Text × ℕ)
  pub last_prune : Option ℕ
  pub pending_queue : List PendingRequest
  pub active_requests : ℕ
  pub stopping : Bool
  pub scrapes : List Scrape
  pub reports : List (Text × AnnounceResult)
  pub scraped : List (Text × AnnounceResult)

abbrev pub check_interval_secs : ℕ
check_interval_secs = 300

abbrev pub max_concurrent : ℕ
max_concurrent = 5

abbrev pub info_hash_hex_length : ℕ
info_hash_hex_length = 40

abbrev pub ticks_per_sec : ℕ
ticks_per_sec = 1000000000

unfoldable pub default_trackers : List Text
default_trackers =
    codes "udp://tracker.opentrackr.org:1337/announce"
    ∷ codes "udp://open.tracker.cl:1337/announce"
    ∷ codes "udp://tracker.openbittorrent.com:6969/announce"
    ∷ codes "udp://exodus.desync.com:6969/announce"
    ∷ codes "udp://tracker.torrent.eu.org:451/announce"
    ∷ codes "udp://open.demonii.com:1337/announce"
    ∷ codes "udp://explodie.org:6969/announce"
    ∷ codes "udp://tracker.moeking.me:6969/announce"
    ∷ []

abbrev pub no_result : AnnounceResult
no_result = record { seeders = pos 0; leechers = pos 0; completed = pos 0; success = false }

unfoldable pub new : Swarm
new = record {
  recent_checks = [];
  last_prune = none;
  pending_queue = [];
  active_requests = 0;
  stopping = false;
  scrapes = [];
  reports = [];
  scraped = [];
}

-- duration_cast<seconds>(now - then); the clock does not go back
abbrev pub elapsed_secs : ℕ → ℕ → ℕ
elapsed_secs now since = (now - since) / ticks_per_sec

unfoldable pub prune_stale_checks : ℕ → List (Text × ℕ) → List (Text × ℕ)
prune_stale_checks now [] = []
prune_stale_checks now ((h, t) ∷ m) =
    let rest = prune_stale_checks now m in
    if leb check_interval_secs (elapsed_secs now t) then rest else (h, t) ∷ rest

unfoldable pub find_check : Text → List (Text × ℕ) → Option ℕ
find_check hash [] = none
find_check hash ((h, t) ∷ m) = if eq_text h hash then some t else find_check hash m

-- recentChecks_[infoHash] = now
unfoldable pub set_check : Text → ℕ → List (Text × ℕ) → List (Text × ℕ)
set_check hash now [] = (hash, now) ∷ []
set_check hash now ((h, t) ∷ m) =
    if eq_text h hash then (h, now) ∷ m else (h, t) ∷ set_check hash now m

-- A task for each tracker goes to the pool.
unfoldable pub start_scrape : Text → List Text → Swarm → Swarm
start_scrape hash trackers s = record s {
  scrapes =
      s.scrapes ++ record { info_hash = hash; best = no_result; remaining = length trackers } ∷ [];
}

abbrev is_prune_due : ℕ → Option ℕ → Bool
is_prune_due now none = true
is_prune_due now (some last) = leb check_interval_secs (elapsed_secs now last)

abbrev is_cooling : ℕ → Option ℕ → Bool
is_cooling now none = false
is_cooling now (some t) = ltb (elapsed_secs now t) check_interval_secs

unfoldable pub pruned : ℕ → Swarm → Swarm
pruned now s =
    if is_prune_due now s.last_prune
    then record s { recent_checks = prune_stale_checks now s.recent_checks; last_prune = some now }
    else s

-- What requestScrape does for a hash that is not cooling down.
unfoldable pub admit : ℕ → Text → List Text → Swarm → Swarm
admit now hash trackers s =
    let marked : Swarm = record s { recent_checks = set_check hash now s.recent_checks } in
    if leb max_concurrent marked.active_requests
    then record marked {
      pending_queue = marked.pending_queue ++ record { info_hash = hash; trackers = trackers } ∷ [];
    }
    else start_scrape hash trackers (record marked { active_requests = suc marked.active_requests })

unfoldable pub effective_trackers : List Text → List Text
effective_trackers trackers = if null trackers then default_trackers else trackers

unfoldable pub request_scrape : ℕ → Text → List Text → Swarm → Swarm
request_scrape now hash trackers s =
    if s.stopping || not (length hash == info_hash_hex_length)
    then s
    else let s' = pruned now s in
      if is_cooling now (find_check hash s'.recent_checks)
      then s'
      else admit now hash (effective_trackers trackers) s'

-- The loop of processQueue.
unfoldable pub drain : List PendingRequest → Swarm → Swarm
drain [] s = record s { pending_queue = [] }
drain (r ∷ queue) s =
    let rest = drain queue (
      start_scrape r.info_hash r.trackers (record s { active_requests = suc s.active_requests })) in
    if ltb s.active_requests max_concurrent then rest else record s { pending_queue = r ∷ queue }

unfoldable pub process_queue : Swarm → Swarm
process_queue s = if s.stopping then s else drain s.pending_queue s

-- What one announce adds to the best result.
unfoldable pub merge : AnnounceResult → AnnounceResult → AnnounceResult
merge one best =
    if one.success && (not best.success || ltb_ℤ best.seeders one.seeders) then one else best

-- What a task merges: what its tracker answered, or nothing if it found the scraper stopping and did
-- not announce.
unfoldable pub heard : Option AnnounceResult → AnnounceResult → AnnounceResult
heard none best = best
heard (some one) best = merge one best

-- The tasks of the scrape that are left are counted down, and the last one posts the result.
unfoldable pub settle : ℕ → Text → AnnounceResult → List Scrape → Swarm → Swarm
settle zero hash best rest s = s
settle (suc zero) hash best rest s = record s {
  scrapes = rest;
  reports = s.reports ++ (hash, best) ∷ [];
}
settle (suc (suc n)) hash best rest s = record s {
  scrapes = record { info_hash = hash; best = best; remaining = suc n } ∷ rest;
}

-- A pool task of a scrape ends.
unfoldable pub end_task : Option AnnounceResult → Option (Scrape × List Scrape) → Swarm → Swarm
end_task one none s = s
end_task one (some (c, rest)) s = settle c.remaining c.info_hash (heard one c.best) rest s

unfoldable pub finish_announce : ℕ → Option AnnounceResult → Swarm → Swarm
finish_announce i one s = end_task one (pick i s.scrapes) s

-- The engine loop runs a result that was posted.
unfoldable pub deliver :
    Option ((Text × AnnounceResult) × List (Text × AnnounceResult)) → Swarm → Swarm
deliver none s = s
deliver (some ((hash, best), rest)) s =
    let freed : Swarm = record s { reports = rest; active_requests = s.active_requests - 1 } in
    process_queue (
      if best.success then record freed { scraped = freed.scraped ++ (hash, best) ∷ [] } else freed)

unfoldable pub run_report : ℕ → Swarm → Swarm
run_report i s = deliver (pick i s.reports) s

-- stop; a task that the pool drops is one whose end never comes.
unfoldable pub stop : Swarm → Swarm
stop s = record s { stopping = true; pending_queue = [] }

pub data Event : Type 0 where
  requests : ℕ → Text → List Text → Event
  announces : ℕ → Option AnnounceResult → Event
  delivers : ℕ → Event
  stops : Event

unfoldable pub handle : Swarm → Event → Swarm
handle s (requests now hash trackers) = request_scrape now hash trackers s
handle s (announces i one) = finish_announce i one s
handle s (delivers i) = run_report i s
handle s stops = stop s

unfoldable pub run : Swarm → List Event → Swarm
run s [] = s
run s (e ∷ es) = run (handle s e) es
