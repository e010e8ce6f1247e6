-- ===== src/Engine/Replication.antt =====
-- native/engine/replication.h and replication.cpp: the timer that asks peers for random torrents.
-- `pending` holds what postDelayed has scheduled; the messages sent are kept, newest first.
pub mod Bounds
pub mod Chains
use rats_search_tui.Base.{
  ℕ, zero, suc, ◌+◌, ◌*◌, ℤ, pos, pos_part, ◌+ℤ◌, wrap32, wrap64, ltb_ℤ, ltb, Bool, true, false,
  not, ◌||◌, List, [], ◌∷◌, Option, none, some, Text, codes, pick, ◌==◌, if◌then◌else◌,
}

pub data Task : Type 0 where
  perform_cycle settle : Task

-- A randomTorrents request: its limit and version.
pub record Request : Type 0 where
  pub limit : ℕ
  pub version : Text

pub record Replication : Type 0 where
  pub enabled : Bool
  pub running : Bool
  pub interval : ℤ
  -- receivedThisCycle_, an atomic int, which wraps, and totalReplicated_, an int64_t
  pub received_this_cycle : ℤ
  pub total_replicated : ℤ
  pub sent : List Request
  -- A task and its delay.
  pub pending : List (Task × ℤ)

abbrev pub initial_interval_ms : ℤ
initial_interval_ms = pos 5000

abbrev pub idle_interval_ms : ℤ
idle_interval_ms = pos 10000

abbrev pub max_interval_ms : ℤ
max_interval_ms = pos 60000

abbrev pub settle_delay_ms : ℤ
settle_delay_ms = pos 3000

abbrev pub busy_threshold : ℤ
busy_threshold = pos 8

abbrev pub backoff_per_torrent_ms : ℕ
backoff_per_torrent_ms = 600

abbrev pub torrents_per_peer : ℕ
torrents_per_peer = 5

unfoldable pub init : Replication
init = record {
  enabled = false;
  running = false;
  interval = initial_interval_ms;
  received_this_cycle = pos 0;
  total_replicated = pos 0;
  sent = [];
  pending = [];
}

abbrev post_delayed : Task → ℤ → Replication → Replication
post_delayed task delay r = record r { pending = (task, delay) ∷ r.pending }

unfoldable pub stop : Replication → Replication
stop r = if not r.running then r else record r { running = false }

unfoldable pub set_enabled : Bool → Replication → Replication
unfolding stop
set_enabled b r = let r' : Replication = record r { enabled = b } in if not b then stop r' else r'

unfoldable pub start : Replication → Replication
start r =
    if not r.enabled || r.running
    then r
    else post_delayed perform_cycle initial_interval_ms
        (record r { interval = initial_interval_ms; received_this_cycle = pos 0; running = true })

unfoldable pub notify_received : Replication → Replication
notify_received r = record r { received_this_cycle = wrap32 (r.received_this_cycle +ℤ pos 1) }

-- performCycle, while `peers` are connected
unfoldable pub do_perform_cycle : ℕ → Replication → Replication
unfolding stop
do_perform_cycle peers r =
    if not r.running
    then r
    else if not r.enabled
    then stop r
    else if peers == 0
    then post_delayed perform_cycle r.interval r
    else post_delayed settle settle_delay_ms (record r {
      received_this_cycle = pos 0;
      sent = record { limit = torrents_per_peer; version = codes "2.0" } ∷ r.sent;
    })

abbrev min_ℤ : ℤ → ℤ → ℤ
min_ℤ a b = if ltb_ℤ b a then b else a

-- The delay after a cycle in which `received` torrents came, a number above zero in the product.
unfoldable pub next_interval : ℤ → ℤ
next_interval received =
    if ltb_ℤ busy_threshold received
    then min_ℤ max_interval_ms (wrap32 (pos (pos_part received * backoff_per_torrent_ms)))
    else idle_interval_ms

unfoldable pub do_settle : Replication → Replication
do_settle r =
    if not r.running
    then r
    else let received = r.received_this_cycle in
      let r' : Replication = record r {
        interval = next_interval received;
        total_replicated = wrap64 (r.total_replicated +ℤ received);
      } in
      post_delayed perform_cycle r'.interval r'

unfoldable pub run_task : ℕ → Task → Replication → Replication
run_task peers perform_cycle r = do_perform_cycle peers r
run_task peers settle r = do_settle r

-- What can happen to the object: a call of a method, or the loop running a scheduled task, the
-- one at a position of the list, while so many peers are connected.
pub data Event : Type 0 where
  enables : Bool → Event
  starts stops receives : Event
  fires : ℕ → ℕ → Event

unfoldable pub fire : ℕ → Option ((Task × ℤ) × List (Task × ℤ)) → Replication → Replication
fire peers none r = r
fire peers (some ((task, delay), rest)) r = run_task peers task (record r { pending = rest })

unfoldable pub handle : Replication → Event → Replication
handle r (enables b) = set_enabled b r
handle r starts = start r
handle r stops = stop r
handle r receives = notify_received r
handle r (fires i peers) = fire peers (pick i r.pending) r

unfoldable pub run : Replication → List Event → Replication
run r [] = r
run r (e ∷ es) = run (handle r e) es
