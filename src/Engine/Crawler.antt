-- ===== src/Engine/Crawler.antt =====
-- native/engine/crawler.h and crawler.cpp: the DHT crawler. The BitTorrent subsystem is librats':
-- `calls` holds what the crawler asked of it, newest first, `in_flight` the metadata fetches whose
-- callback has not come, and its answers are arguments. `J` is the type of JSON values.
pub mod Fetches
pub mod Work
use rats_search_tui.Base.{
  ℕ, zero, suc, ◌+◌, ◌/◌, ◌%◌, ℤ, pos, negsuc, ◌+ℤ◌, wrap32, wrap64, ltb_ℤ, ltb, Bool, true, false,
  not, ◌&&◌, ◌||◌, List, [], ◌∷◌, ◌++◌, map, Option, none, some, Text, codes, eq_text, pick, any,
  drop, length, null, ◌==◌, if◌then◌else◌,
}
use rats_search_tui.Domain.Content.{ContentType, ContentCategory}
use rats_search_tui.Domain.Torrent.{File, Torrent}

-- The peer is empty where a search of the DHT has to find one.
pub record MetadataRequest : Type 0 where
  pub info_hash : Text
  pub peer_ip : Text
  pub peer_port : ℕ

-- What the accessors of librats::bittorrent::TorrentInfo return.
pub record TorrentInfo : Type 0 where
  pub is_valid : Bool
  pub name : Text
  pub total_size : ℕ
  pub piece_length : ℕ
  pub files : List (Text × ℕ)

pub data Call : Type 0 where
  set_spider_mode set_spider_ignore : Bool → Call
  set_announce_callback spider_walk : Call
  get_torrent_metadata_from_peer : Text → Text → ℕ → Call
  get_torrent_metadata : Text → Call

module _ (J : Type 0) where
  -- What the engine loop runs for the crawler.
  pub data Task : Type 0 where
    spider_walk ignore_toggle process_queue : Task
    announce : Text → Text → ℕ → Task
    metadata_received : Torrent J → Task

  pub record Crawler : Type 0 where
    pub has_bittorrent : Bool
    pub running : Bool
    pub discovered_count : ℤ
    pub active_fetches : ℤ
    pub metadata_queue : List MetadataRequest
    pub recent_hashes : List Text
    pub in_flight : List MetadataRequest
    pub calls : List Call
    -- A task and its delay.
    pub pending : List (Task × ℕ)
    pub walk_interval_ms : ℕ
    -- What the discovered-torrent callback was called with, newest first.
    pub discovered : List (Torrent J)

abbrev pub default_ignore_interval_ms : ℕ
default_ignore_interval_ms = 1000

abbrev pub metadata_queue_interval_ms : ℕ
metadata_queue_interval_ms = 100

abbrev pub max_concurrent_metadata_fetches : ℕ
max_concurrent_metadata_fetches = 10

abbrev pub max_recent_hashes : ℕ
max_recent_hashes = 10000

hex_pair : ℕ → Text
hex_pair b = digit (b / 16) ∷ digit (b % 16) ∷ []
  where
    digit : ℕ → ℕ
    digit n = if ltb n 10 then b'0' + n else 87 + n

-- toHex of the bytes of an info-hash
unfoldable pub to_hex : Text → Text
unfolding hex_pair
to_hex [] = []
to_hex (b ∷ bytes) = hex_pair b ++ to_hex bytes

-- `no_info` is the default of the JSON field, `now` the time in milliseconds.
unfoldable pub to_domain_torrent : {J : Type 0} → J → ℤ → Text → TorrentInfo → Torrent J
to_domain_torrent no_info now info_hash info = record {
  hash = info_hash;
  name = info.name;
  size = wrap64 (pos info.total_size);
  files = wrap32 (pos (length info.files));
  piece_length = wrap32 (pos info.piece_length);
  added = now;
  content_type = ContentType.unknown;
  content_category = ContentCategory.unknown;
  seeders = pos 0;
  leechers = pos 0;
  completed = pos 0;
  trackers_checked = pos 0;
  good = pos 0;
  bad = pos 0;
  info = no_info;
  file_list = map (λ (path, size). record { path = path; size = wrap64 (pos size) }) info.files;
}

abbrev pub is_fast_path : MetadataRequest → Bool
is_fast_path r = not (null r.peer_ip) && ltb 0 r.peer_port

-- `place` puts a new element where the unordered set iterates over it.
unfoldable pub remember : (Text → List Text → List Text) → Text → List Text → List Text
remember place hash recent =
    let grown = place hash recent in
    if ltb max_recent_hashes (length grown) then drop (length grown / 2) grown else grown

module _ {J : Type 0} where
  abbrev pub post : Task J → ℕ → Crawler J → Crawler J
  post task delay c = record c { pending = (task, delay) ∷ c.pending }

  abbrev pub call : Call → Crawler J → Crawler J
  call x c = record c { calls = x ∷ c.calls }

  -- The result, and the object.
  unfoldable pub start : Crawler J → Bool × Crawler J
  start c =
      if c.running
      then (true, c)
      else if not c.has_bittorrent
      then (false, c)
      else let c' = call set_announce_callback (call (set_spider_mode true) c) in
        (
          true,
          post process_queue metadata_queue_interval_ms (
              post ignore_toggle default_ignore_interval_ms
                (post spider_walk c.walk_interval_ms (record c' { running = true }))),
        )

  unfoldable pub stop : Crawler J → Crawler J
  stop c =
      if not c.running
      then c
      else let c' = if c.has_bittorrent then call (set_spider_mode false) c else c in
        record c' { active_fetches = pos 0; running = false }

  unfoldable pub on_spider_walk : Crawler J → Crawler J
  on_spider_walk c =
      if not c.running
      then c
      else post spider_walk c.walk_interval_ms
          (if c.has_bittorrent then call Call.spider_walk c else c)

  -- `mode` and `ignoring` are the answers of is_spider_mode and is_spider_ignoring.
  unfoldable pub on_ignore_toggle : Bool → Bool → Crawler J → Crawler J
  on_ignore_toggle mode ignoring c =
      if not c.running
      then c
      else post ignore_toggle default_ignore_interval_ms
          (if c.has_bittorrent && mode then call (set_spider_ignore (not ignoring)) c else c)

  unfoldable pub fetch_metadata : MetadataRequest → Crawler J → Crawler J
  fetch_metadata r c =
      if not c.has_bittorrent
      then c
      else call
          (if is_fast_path r
            then get_torrent_metadata_from_peer r.info_hash r.peer_ip r.peer_port
            else get_torrent_metadata r.info_hash)
          (record c {
            active_fetches = wrap32 (c.active_fetches +ℤ pos 1);
            in_flight = r ∷ c.in_flight;
          })

  -- The loop of processMetadataQueue over the requests in the queue.
  unfoldable pub drain_queue : List MetadataRequest → Crawler J → Crawler J
  drain_queue [] c = record c { metadata_queue = [] }
  drain_queue (r ∷ queue) c =
      let rest = drain_queue queue (fetch_metadata r c) in
      if ltb_ℤ c.active_fetches (pos max_concurrent_metadata_fetches)
      then rest
      else record c { metadata_queue = r ∷ queue }

  unfoldable pub process_metadata_queue : Crawler J → Crawler J
  process_metadata_queue c =
      if not c.running
      then c
      else post process_queue metadata_queue_interval_ms (drain_queue c.metadata_queue c)

  -- `known` is the filter's answer for the hash, false where there is no filter.
  unfoldable pub on_announce :
      (Text → List Text → List Text) → (Text → Bool) → Text → Text → ℕ → Crawler J → Crawler J
  on_announce place known info_hash ip port c =
      let hash = to_hex info_hash in
      if any (eq_text hash) c.recent_hashes
      then c
      else let c' : Crawler J = record c { recent_hashes = remember place hash c.recent_hashes } in
        if known hash then c' else record c' {
          metadata_queue =
              c.metadata_queue ++ record { info_hash = hash; peer_ip = ip; peer_port = port } ∷ [];
        }

  -- The callback of a fetch: the request's capture, the metadata and whether the fetch succeeded.
  unfoldable pub on_result : J → ℤ → MetadataRequest → TorrentInfo → Bool → Crawler J → Crawler J
  on_result no_info now r info success c =
      let c' : Crawler J = record c { active_fetches = wrap32 (c.active_fetches +ℤ negsuc 0) } in
      if not success || not info.is_valid
      then (if is_fast_path r && c.running
          then record c' {
            metadata_queue =
                c.metadata_queue
                ++ record { info_hash = r.info_hash; peer_ip = []; peer_port = 0 } ∷ [];
          }
          else c')
      else post (metadata_received (to_domain_torrent no_info now r.info_hash info)) 0 c'

  unfoldable pub on_metadata_received : Torrent J → Crawler J → Crawler J
  on_metadata_received torrent c = record c {
    discovered_count = wrap32 (c.discovered_count +ℤ pos 1);
    discovered = torrent ∷ c.discovered;
  }

-- What can happen to the object: the calls of its user, librats' callbacks, and the loop running
-- the task at a position of the list. librats completes the fetch at a position of `in_flight`.
pub data Event : Type 0 where
  starts stops : Event
  announces : Text → Text → ℕ → Event
  completes : ℕ → TorrentInfo → Bool → ℤ → Event
  fires : ℕ → Event

-- What the rest of the program answers: the place in the set, the JSON default, the hashes that
-- are indexed, and the two flags of the DHT node.
pub record Surroundings (J : Type 0) : Type 0 where
  pub place : Text → List Text → List Text
  pub no_info : J
  pub known : Text → Bool
  pub mode : Bool
  pub ignoring : Bool

module _ {J : Type 0} (env : Surroundings J) where
  unfoldable pub run_task : Task J → Crawler J → Crawler J
  run_task Task.spider_walk c = on_spider_walk c
  run_task ignore_toggle c = on_ignore_toggle env.mode env.ignoring c
  run_task process_queue c = process_metadata_queue c
  run_task (announce info_hash ip port) c = on_announce env.place env.known info_hash ip port c
  run_task (metadata_received torrent) c = on_metadata_received torrent c

  unfoldable pub fire : Option ((Task J × ℕ) × List (Task J × ℕ)) → Crawler J → Crawler J
  fire none c = c
  fire (some ((task, delay), rest)) c = run_task task (record c { pending = rest })

  unfoldable pub complete :
      TorrentInfo
      → Bool
      → ℤ
      → Option (MetadataRequest × List MetadataRequest)
      → Crawler J
      → Crawler J
  complete info success now none c = c
  complete info success now (some (r, rest)) c =
      on_result env.no_info now r info success (record c { in_flight = rest })

  unfoldable pub handle : Crawler J → Event → Crawler J
  handle c starts = (start c).1
  handle c stops = stop c
  handle c (announces info_hash ip port) = post (announce info_hash ip port) 0 c
  handle c (completes i info success now) = complete info success now (pick i c.in_flight) c
  handle c (fires i) = fire (pick i c.pending) c

  unfoldable pub run : Crawler J → List Event → Crawler J
  run c [] = c
  run c (e ∷ es) = run (handle c e) es
