-- ===== src/Engine/Tests.antt =====
-- The theorems on native/engine at concrete inputs.
use rats_search_tui.Base.{
  ◌-◌, wrap32, ◌+ℤ◌, ◌≤◌, length, take, ltb_ℤ, eq_ℤ, FloatOps, Permutes, ℕ, zero, suc, ◌+◌, ◌*◌,
  ◌^◌, ◌≤◌, ◌<◌, ℤ, pos, negsuc, ◌≡◌, refl, inl, inr, Bool, true, false, List, [], ◌∷◌, ◌++◌,
  Option, none, some, Text, codes, eq_text, null, length, any, arith, is_prefix, if◌then◌else◌, All,
}
use rats_search_tui.Domain.Torrent.{Torrent}
use rats_search_tui.Domain.Json.Sample.{sample, Value, nothing, fields, items, entry, text}
use rats_search_tui.Domain.Samples.{ubuntu, whole}
use rats_search_tui.Engine.Samples.{first_hashes, shelf, as_is, as_is-Permutes}
use rats_search_tui.Index.{SearchIndex, SearchQuery}
use rats_search_tui.Domain.Peer.{PeerStats}
use rats_search_tui.Engine.Peers.{PeerRegistry, lookup}
use rats_search_tui.Engine.Peers.Latest
use rats_search_tui.Engine.Replication
use rats_search_tui.Engine.Replication.Chains.{
  timers, firings, HasOneTimer, restart_adds_timer, run-HasOneTimer,
}
use rats_search_tui.Engine.Crawler
use rats_search_tui.Engine.Crawler.Fetches.{Inv, run-Inv, minus, stop_undercounts}
use rats_search_tui.Engine.Store.{StorageOps, StoredRecord}
use rats_search_tui.Engine.Voting.{State, voted, vote, is_valid_hash, cast}
use rats_search_tui.Engine.Voting.Once.{vote_all, vote_once}
use rats_search_tui.Engine.Feed.{Feed}
use rats_search_tui.Engine.Feed.Invariant.{AreKept}
use rats_search_tui.Engine.Feed.Histories.{
  voted as feed_vote, synced, change_all, change_all-AreKept,
}
use rats_search_tui.Engine.Indexer.{Indexer, prune_batch}
use rats_search_tui.Engine.Indexer.Pruning.{
  HasOneBatch, discovers, prunes_batch, run, run-HasOneBatch, prune_batch_cap,
}

abbrev active : Replication.Replication
active = record {
  enabled = true;
  running = true;
  interval = pos 5000;
  received_this_cycle = pos 0;
  total_replicated = pos 0;
  sent = [];
  pending = (Replication.perform_cycle, pos 5000) ∷ [];
}

restart_adds_timer_example :
    timers (
      Replication.run active
        (Replication.stops ∷ Replication.starts ∷ firings ((0, 1) ∷ (1, 1) ∷ [])))
    ≡ 2
restart_adds_timer_example = restart_adds_timer active ((0, 1) ∷ (1, 1) ∷ []) (refl, refl)

run-HasOneTimer_example :
    HasOneTimer (Replication.run active (Replication.fires 0 1 ∷ Replication.starts ∷ []))
run-HasOneTimer_example =
    run-HasOneTimer (Replication.fires 0 1 ∷ Replication.starts ∷ []) active (tt, (tt, tt))
      (inr ((refl, refl), refl))

abbrev nearby : Crawler.MetadataRequest
nearby = record { info_hash = codes "aa"; peer_ip = codes "10.0.0.1"; peer_port = 6881 }

abbrev crawling : Crawler.Crawler Value
crawling = record {
  has_bittorrent = true;
  running = true;
  discovered_count = pos 0;
  active_fetches = pos 1;
  metadata_queue = nearby ∷ [];
  recent_hashes = codes "aa" ∷ [];
  in_flight = nearby ∷ [];
  calls = [];
  pending = (Crawler.process_queue, 100) ∷ [];
  walk_interval_ms = 100;
  discovered = [];
}

abbrev surroundings : Crawler.Surroundings Value
surroundings = record {
  place = λ hash recent. hash ∷ recent;
  no_info = nothing;
  known = λ hash. false;
  mode = true;
  ignoring = false;
}

abbrev no_metadata : Crawler.TorrentInfo
no_metadata = record { is_valid = false; name = []; total_size = 0; piece_length = 0; files = [] }

abbrev crawl : List Crawler.Event
crawl =
    Crawler.fires 0
    ∷ Crawler.completes 0 no_metadata false (pos 5)
    ∷ Crawler.announces (1 ∷ 2 ∷ []) (codes "10.0.0.2") 6881
    ∷ Crawler.fires 0
    ∷ []

run-Inv_example : Inv (Crawler.run surroundings crawling crawl)
run-Inv_example =
    run-Inv surroundings (λ hash recent. refl) crawl crawling
      ((λ e. cc), ((λ e. cc), ((λ e. cc), ((λ e. cc), tt))))
      (record { counted = refl; capped = omega arith; bounded = omega arith })

abbrev after_stop : List Crawler.Event
after_stop =
    Crawler.completes 0 no_metadata false (pos 5)
    ∷ Crawler.announces (1 ∷ 2 ∷ []) (codes "10.0.0.2") 6881
    ∷ []

stop_undercounts_example :
    (length (Crawler.run surroundings crawling (Crawler.stops ∷ after_stop)).in_flight
      ≤ length crawling.in_flight)
    × ((Crawler.run surroundings crawling (Crawler.stops ∷ after_stop)).active_fetches
        ≡ minus (
            length crawling.in_flight
            - length (Crawler.run surroundings crawling (Crawler.stops ∷ after_stop)).in_flight))
stop_undercounts_example =
    stop_undercounts surroundings (λ hash recent. refl) crawling after_stop refl (omega arith)
      ((λ e. cc), ((λ e. cc), tt))

owes_one :
    (Crawler.run surroundings crawling (Crawler.stops ∷ after_stop)).active_fetches ≡ negsuc 0
unfolding Crawler.run Crawler.handle Crawler.stop Crawler.complete Crawler.on_result wrap32 ◌+ℤ◌
owes_one = refl

abbrev get_value : Text → List (Text × Value) → Option Value
get_value key [] = none
get_value key ((k, v) ∷ kvs) = if eq_text k key then some v else get_value key kvs

abbrev keys_from : Text → List (Text × Value) → List Text
keys_from prefix [] = []
keys_from prefix ((k, v) ∷ kvs) =
    if is_prefix prefix k then k ∷ keys_from prefix kvs else keys_from prefix kvs

abbrev has_value : Option Value → Bool
has_value none = false
has_value (some v) = true

abbrev pairs : StorageOps Value
pairs = record {
  Storage = List (Text × Value);
  put_json = λ key v kvs. (true, (key, v) ∷ kvs);
  has_key = λ key kvs. has_value (get_value key kvs);
  keys_with_prefix = keys_from;
  get_json = get_value;
}

-- The store is down: the vote counts on the index alone.
abbrev booth : State sample pairs shelf
booth = record {
  store = record { storage = none; our_peer_id = codes "me" };
  index = ubuntu ∷ [];
  self_voted_hashes = [];
  updates = [];
}

booth_counts :
    (vote sample pairs shelf (pos 1) (pos 2) ubuntu.hash true booth).0 ≡ voted (pos 2) (pos 0) false
unfolding vote is_valid_hash rats_search_tui.Index.lookup_query cast rats_search_tui.Base.wrap32
    rats_search_tui.Base.◌+ℤ◌
booth_counts = refl

vote_once_example :
    let v =
      (vote_all sample pairs shelf
        (vote sample pairs shelf (pos 1) (pos 2) ubuntu.hash true booth).1
        []) in
    (vote sample pairs shelf (pos 3) (pos 4) ubuntu.hash false v).1 ≡ v
vote_once_example =
    vote_once sample pairs shelf (pos 1) (pos 2) ubuntu.hash true booth (pos 2) (pos 0) false []
      (pos 3) (pos 4) false booth_counts

abbrev ballots : List (StoredRecord Value)
ballots =
    record {
      key = codes "vote:a:p";
      type = codes "vote";
      content = entry fields (codes "vote") (text (codes "good"));
      peer_id = codes "p";
      timestamp = pos 1;
    }
    ∷ []

abbrev no_items : Feed Value
no_items = record {
  feed = [];
  index_by_hash = [];
  feed_date = pos 0;
  dirty = false;
  flush_scheduled = false;
  revision = 0;
  pending = [];
  file = none;
}

change_all-AreKept_example :
    AreKept
      (change_all sample whole as_is shelf no_items (
        feed_vote (ubuntu ∷ []) (pos 100) ubuntu.hash
        ∷ synced (pos 101) (pos 101000) items (pos 7)
        ∷ [])).feed
change_all-AreKept_example =
    change_all-AreKept sample whole as_is shelf as_is-Permutes
      (feed_vote (ubuntu ∷ []) (pos 100) ubuntu.hash
        ∷ synced (pos 101) (pos 101000) items (pos 7)
        ∷ [])
      no_items (omega arith, tt)

abbrev crowded : Indexer (List (Torrent Value))
crowded = record {
  index = ubuntu ∷ ubuntu ∷ [];
  max_torrents = pos 1;
  record_count = pos 2;
  prune_in_flight = true;
  prunes = 1;
  indexed = [];
}

run-HasOneBatch_example :
    HasOneBatch (run shelf crowded (discovers (λ t. t) (λ t. []) ubuntu ∷ prunes_batch ∷ []))
run-HasOneBatch_example =
    run-HasOneBatch shelf (discovers (λ t. t) (λ t. []) ubuntu ∷ prunes_batch ∷ []) crowded
      (inl (refl, refl))

first_hashes_le : (n : ℕ) (ts : List (Torrent Value)) → length (first_hashes n ts) ≤ n
first_hashes_le zero ts = omega arith
first_hashes_le (suc n) [] = omega arith
first_hashes_le (suc n) (t ∷ ts) = omega (arith, first_hashes_le n ts)

prune_batch_cap_example :
    (left : ℕ) × ((prune_batch shelf crowded).record_count ≡ pos left)
    × (1 ≤ left)
    × (((prune_batch shelf crowded).prunes ≡ 2) → (left < 2) × (1 < left))
prune_batch_cap_example =
    prune_batch_cap shelf 2 1 crowded first_hashes_le refl refl (omega arith) (omega arith)

abbrev stats : PeerStats
stats = record {
  client_version = codes "2.0";
  torrents = pos 3;
  files = pos 12;
  total_size = pos 4096;
  peers_connected = pos 2;
  connected_at = pos 5;
}

abbrev lonely : PeerRegistry
lonely = record {
  client_version = codes "2.0";
  our_torrents = pos 0;
  our_files = pos 0;
  our_total_size = pos 0;
  peers = [];
  sent = [];
  connected = [];
}

abbrev meetings : List Latest.Event
meetings =
    Latest.connects true 1 (codes "p")
    ∷ Latest.informs (pos 9) (codes "p") stats
    ∷ Latest.informs (pos 10) (codes "q") stats
    ∷ Latest.disconnects (codes "q")
    ∷ []

peers-latest_example :
    lookup (codes "p") (Latest.run lonely meetings).peers ≡ Latest.latest (codes "p") none meetings
peers-latest_example = Latest.peers-latest meetings lonely (codes "p")
