-- ===== src/Lib.antt =====
-- rats-search-tui: the native program under native/, a terminal client that crawls the BitTorrent
-- DHT for torrents, filters and indexes them, and shares them with its peers.
--
-- Parts and how they interact. The crawler (native/engine/crawler.cpp) hears announces, fetches
-- the metadata of each new hash and hands a torrent to the indexer (native/engine/indexer.cpp),
-- which classifies it (native/domain/content_classifier.cpp), asks the filter policy
-- (native/domain/filter_policy.cpp), writes to the search index (the interface
-- native/index/search_index.h) and prunes it by batches. The tracker service
-- (native/engine/tracker_service.cpp) has the swarm scraper (native/engine/swarm_scraper.cpp) ask
-- trackers for the counts of what is indexed, and writes the best answer to the index. The peer
-- API (native/engine/peer_api.cpp) answers the requests of peers from the index and hands what
-- their replies bring to the indexer, the feed and the accounts of the replication. Replication
-- (native/engine/replication.cpp) asks peers for random torrents by a timer that adapts. Voting
-- (native/engine/voting.cpp) keeps one record per peer and torrent in the distributed store
-- (native/engine/p2p_store.cpp), and each vote enters its torrent into the feed
-- (native/engine/feed.cpp), which is ranked, saved to a file and exchanged with peers. The peer
-- registry (native/engine/peer_registry.cpp) keeps what each peer says of itself. Torrents travel
-- as the JSON of native/domain/torrent_codec.cpp. The download manager
-- (native/engine/downloads.cpp) keeps a registry of downloads, and polls the BitTorrent client
-- each second; the session store (native/engine/session_store.cpp) saves the registry to a file.
-- The site scraper (native/engine/site_scraper.cpp) fetches the pages of tracker web sites and
-- reports what they say of a torrent to the tracker service. The index itself is a Groonga database
-- that is driven by commands as text (native/index/groonga_index.cpp). The settings come from a file
-- (native/platform/config.cpp). Everything runs as tasks of one engine loop
-- (native/platform/engine_loop.cpp), but for blocking calls, which go to a pool of threads
-- (native/platform/worker_pool.cpp).
--
-- Files:
--   Base            numbers, lists, bytes and text that the parts share
--   Domain/Content  native/domain/content.{h,cpp}: names and ids of types and categories
--   Domain/Torrent  native/domain/torrent.{h,cpp}: the records and the magnet link
--   Domain/Json     what the code uses of the JSON library, and its laws
--   Domain/Codec    native/domain/torrent_codec.{h,cpp}
--   Domain/Peer     native/domain/peer.h
--   Domain/Filter   native/domain/filter_policy.{h,cpp}
--   Domain/Classifier
--                   native/domain/content_classifier.{h,cpp}
--   Platform/Config native/platform/config.{h,cpp}
--   Platform/Disk   how the program writes its JSON files
--   Platform/EngineLoop, Platform/WorkerPool
--                   the file of that name under native/platform
--   Index           native/index/search_index.h as a record of operations
--   Index/Groonga   native/index/groonga_index.{h,cpp}: Client the commands and the schema, Query
--                   their text, Rows the replies, Writes, Reads and Files the operations
--   Engine/Crawler, Engine/Replication, Engine/Indexer, Engine/Store, Engine/Voting, Engine/Feed
--                   the file of that name under native/engine (Store: p2p_store)
--   Engine/Swarm    native/engine/swarm_scraper.{h,cpp}
--   Engine/Trackers native/engine/tracker_service.{h,cpp}, on Engine/Swarm
--   Engine/PeerApi  native/engine/peer_api.{h,cpp}, on Engine/Indexer, Replication and Feed
--   Engine/Downloads
--                   native/engine/downloads.{h,cpp}: Lifecycle the calls, Poll the poll,
--                   Session the session and the autosave, Deletion the removal of files
--   Engine/Sessions native/engine/session_store.{h,cpp}
--   Engine/Sites    native/engine/site_scraper.{h,cpp}: Encoding and Html the text, Pages what is
--                   read of a page, Report the merge
--   Engine/Indexer/Accepted
--                   the indexer with the modelled classifier and filter
--   Engine/Peers    native/engine/peer_registry.{h,cpp}
-- A folder beside a file holds the lemmas on it; the modules called Tests run them, on the data of
-- those called Samples.
--
-- How the code is read. A class is a record of its fields, a member function takes the record and
-- returns it changed. Calls into other objects that matter (messages, BitTorrent calls, updates to
-- the listener) are recorded in a list. A task given to the engine loop is an entry of the field
-- `pending` (a counter for the indexer), and a history is a list of events in any order: a call, an
-- announce, a completed fetch, a timer that fires. The clock is an argument. Logging is left out.
-- Text is a list of bytes; int and int64_t are integers that wrap at 32 and 64 bits where the code
-- adds or converts.
--
-- Parameters: the JSON library, PCRE2, the storage of librats, the search index, doubles and
-- std::sort, the heap operations of the standard library, the place where an unordered_set puts a
-- new element and the order in which an unordered_map is walked, the tables embedded in the
-- classifier, the classifier and the reason of the filter as the indexer and the peer API call
-- them, the BitTorrent client as the download manager uses it, whether a text is a peer id, and
-- whether the feed's file could be written; how a write of the session or of the configuration
-- ends, whether the session file can be removed, doubles in JSON and the texts that JSON is
-- dumped to, what Groonga replies to a command and what objects it has, the numbers drawn for
-- random torrents, what readInfoRaw finds in a reply that has been destroyed, std::stable_sort,
-- the default of fileIndex that the build sets, and, for the paths of a deletion, the order of
-- std::sort and the equality of paths.
--
-- Fuel: the split at commas has the length of the text and one more, a step for each piece and
-- its comma; the printing of a number has its value and one more, a step for each digit; the loop
-- that collects the delayed tasks that are due has the size of the heap, an element for each
-- step; the loops over the matches of a pattern have the length of the text and two more, since
-- each round but the last goes on behind its position; the loop over the parents of a path has
-- the length of the path and one more, since a parent is shorter. All other loops are by
-- recursion on a list.
--
-- Not modelled: that a Groonga database is opened, and the seed of the numbers that are drawn
-- from it; the searches that other parts make go through the interface, whose methods do not
-- throw, while those of Index/Groonga are none where a getter of the JSON library throws; libcurl
-- (a fetch ends in an event with its page), that additions of downloads make directories, that a
-- pool which stops wakes its threads and joins them, the locks (each member function, and each
-- step of a pool's thread under its lock, runs whole), logging, the terminal interface, and the
-- Qt application under src/. The tracker service records the calls that it makes of the site
-- scraper, which is a part of its own here.
pub mod Base
pub mod Domain
pub mod Platform
pub mod Engine
pub mod Index
