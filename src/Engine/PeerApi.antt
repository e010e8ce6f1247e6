-- ===== src/Engine/PeerApi.antt =====
-- native/engine/peer_api.h and peer_api.cpp: the state of the peer-to-peer front end, and how it
-- sends. The requests that it answers are in PeerApi/Requests, the replies that it takes in and the
-- dispatch of a message in PeerApi/Responses. The JSON library and the test whether a text is a peer
-- id are parameters; `sent` holds the messages that were handed to a peer, `broadcasts` those to all
-- peers, `found` and `found_files` what the callbacks of the search tab were called with.
pub mod Requests
pub mod Responses
pub mod Insertions
pub mod Messages
pub mod Taken
mod Tests
use rats_search_tui.Base.{
  ℤ, pos, leb, Bool, true, false, List, [], ◌∷◌, ◌++◌, Option, none, some, Text, codes, length,
  null, if◌then◌else◌,
}
use rats_search_tui.Domain.Json.{JsonOps}
use rats_search_tui.Domain.Torrent.{SearchHit}
use rats_search_tui.Domain.Codec.{set_all}
use rats_search_tui.Engine.Indexer.{Indexer}
use rats_search_tui.Engine.Replication.{Replication}
use rats_search_tui.Engine.Feed.{Feed}

pub record Sent (J : Type 0) : Type 0 where
  pub peer_id : Text
  pub type : Text
  pub body : J

pub record PeerApi (I J : Type 0) : Type 0 where
  pub indexer : Indexer I
  pub replication : Option Replication
  pub replication_server_enabled : Bool
  pub feed : Option (Feed J)
  pub sent : List (Sent J)
  pub broadcasts : List (Text × J)
  pub found : List (SearchHit J)
  pub found_files : List (SearchHit J)

module _ (json : JsonOps) where
  open json use {Json, object, of_string, of_int, of_bool}

  -- The message of broadcastSearch.
  unfoldable pub search_message : Text → ℤ → Text → Bool → Bool → Text → Json
  search_message query limit sort descending safe_search content_type =
      let msg = set_all json object (
        (codes "query", of_string query)
        ∷ (codes "text", of_string query)
        ∷ (codes "limit", of_int limit)
        ∷ (codes "orderBy", of_string sort)
        ∷ (codes "orderDesc", of_bool descending)
        ∷ (codes "safeSearch", of_bool safe_search)
        ∷ []) in
      if null content_type then msg else json.set msg (codes "type") (of_string content_type)

module _ (json : JsonOps) {I : Type 0} where
  open json use {Json, object, of_int}

  unfoldable pub send_to_peer : (Text → Bool) → Text → Text → Json → PeerApi I Json → PeerApi I Json
  send_to_peer is_peer_id peer type body x =
      if is_peer_id peer
      then record x { sent = x.sent ++ record { peer_id = peer; type = type; body = body } ∷ [] }
      else x

  unfoldable pub broadcast_search :
      Text → ℤ → Text → Bool → Bool → Text → Bool → PeerApi I Json → PeerApi I Json
  broadcast_search query limit sort descending safe_search content_type search_files x =
      let msg = search_message json query limit sort descending safe_search content_type in
      if leb (length query) 2 then x else record x {
        broadcasts =
            x.broadcasts
            ++ (codes "searchTorrent", msg)
              ∷ (if search_files then (codes "searchFiles", msg) ∷ [] else []);
      }

  ask_feed : (Text → Bool) → Text → Option (Feed Json) → PeerApi I Json → PeerApi I Json
  ask_feed is_peer_id peer none x = x
  ask_feed is_peer_id peer (some f) x =
      send_to_peer is_peer_id peer (codes "feed")
        (set_all json object (
          (codes "localSize", of_int (pos (length f.feed)))
          ∷ (codes "localFeedDate", of_int f.feed_date)
          ∷ []))
        x

  ask_random : (Text → Bool) → Text → Option Replication → PeerApi I Json → PeerApi I Json
  ask_random is_peer_id peer none x = x
  ask_random is_peer_id peer (some r) x =
      if r.enabled
      then send_to_peer is_peer_id peer (codes "randomTorrents")
          (set_all json object ((codes "limit", of_int (pos 5)) ∷ [])) x
      else x

  unfoldable pub on_peer_connected : (Text → Bool) → Text → PeerApi I Json → PeerApi I Json
  unfolding ask_feed ask_random
  on_peer_connected is_peer_id peer x =
      ask_random is_peer_id peer x.replication (ask_feed is_peer_id peer x.feed x)
