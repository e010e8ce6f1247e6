-- ===== src/Engine/PeerApi/Messages.antt =====
-- What each message does to the front end of native/engine/peer_api.cpp.
use rats_search_tui.Base.{
  ◌≡◌, refl, ◌∙◌, ℤ, pos, Bool, true, false, List, [], ◌∷◌, Option, none, some, Text, codes,
  FloatOps, arith, if◌then◌else◌,
}
use rats_search_tui.Domain.Json.{JsonOps}
use rats_search_tui.Domain.Codec.{ToJsonOptions}
use rats_search_tui.Domain.Torrent.{Torrent, SearchHit}
use rats_search_tui.Index.{SearchIndex}
use rats_search_tui.Engine.Feed.{Feed, Sorter, from_json_array}
use rats_search_tui.Engine.PeerApi.{PeerApi, send_to_peer}
use rats_search_tui.Engine.PeerApi.Requests.{
  send_all, handle_search_request, handle_search_files_request, handle_top_torrents_request,
  handle_torrent_request, reply_torrent, handle_random_torrents_request, handle_feed_request,
}
use rats_search_tui.Engine.PeerApi.Responses.{
  insert_from_peer, insert_all, items_of, remote_feed, take_torrents, handle_search_result,
  handle_search_files_result, handle_torrent_response, handle_random_torrents_response,
  handle_torrent_announce, handle_feed_response, take_feed, Kind, search, search_files,
  top_torrents, torrent, feed, random_torrents, search_response, search_files_response,
  torrent_response, feed_response, random_torrents_response, torrent_announce, handle,
}

-- Nothing but the messages that are sent to peers changes.
pub record OnlySends {I J : Type 0} (x x' : PeerApi I J) : Type 0 where
  pub same_indexer : x'.indexer ≡ x.indexer
  pub same_replication : x'.replication ≡ x.replication
  pub same_feed : x'.feed ≡ x.feed
  pub same_found : x'.found ≡ x.found
  pub same_found_files : x'.found_files ≡ x.found_files
  pub same_broadcasts : x'.broadcasts ≡ x.broadcasts
  pub same_server : x'.replication_server_enabled ≡ x.replication_server_enabled

nothing-OnlySends : {I J : Type 0} (x : PeerApi I J) → OnlySends x x
nothing-OnlySends x = record {
  same_indexer = refl;
  same_replication = refl;
  same_feed = refl;
  same_found = refl;
  same_found_files = refl;
  same_broadcasts = refl;
  same_server = refl;
}

module _ (json : JsonOps) (index : SearchIndex json.Json) (is_peer_id : Text → Bool) where
  open json use {Json}

  send_to_peer-OnlySends :
      (peer type : Text) (body : Json) (x : PeerApi index.State Json)
      → OnlySends x (send_to_peer json is_peer_id peer type body x)
  unfolding send_to_peer
  send_to_peer-OnlySends peer type body x = ground arith

  send_all-OnlySends :
      (peer type : Text) (bodies : List Json) (x : PeerApi index.State Json)
      → OnlySends x (send_all json index is_peer_id peer type bodies x)
  unfolding send_all
  send_all-OnlySends peer type [] x = nothing-OnlySends x
  send_all-OnlySends peer type (body ∷ bodies) x =
      let y = send_to_peer json is_peer_id peer type body x in
      let f = send_to_peer-OnlySends peer type body x in
      let g = send_all-OnlySends peer type bodies y in
      record {
        same_indexer = g.same_indexer ∙ f.same_indexer;
        same_replication = g.same_replication ∙ f.same_replication;
        same_feed = g.same_feed ∙ f.same_feed;
        same_found = g.same_found ∙ f.same_found;
        same_found_files = g.same_found_files ∙ f.same_found_files;
        same_broadcasts = g.same_broadcasts ∙ f.same_broadcasts;
        same_server = g.same_server ∙ f.same_server;
      }

  reply_torrent-OnlySends :
      (peer : Text) (options : ToJsonOptions) (hits : List (SearchHit Json))
      (x : PeerApi index.State Json)
      → OnlySends x (reply_torrent json index is_peer_id peer options hits x)
  unfolding reply_torrent
  reply_torrent-OnlySends peer options [] x = nothing-OnlySends x
  reply_torrent-OnlySends peer options (hit ∷ hits) x = send_to_peer-OnlySends peer _ _ x

  if-OnlySends :
      (b : Bool) (x x' : PeerApi index.State Json)
      → OnlySends x x'
      → OnlySends x (if b then x else x')
  if-OnlySends true x x' f = nothing-OnlySends x
  if-OnlySends false x x' f = f

-- The messages that ask for something.
abbrev pub is_request : Kind → Bool
is_request search = true
is_request search_files = true
is_request top_torrents = true
is_request torrent = true
is_request feed = true
is_request random_torrents = true
is_request search_response = false
is_request search_files_response = false
is_request torrent_response = false
is_request feed_response = false
is_request random_torrents_response = false
is_request torrent_announce = false

-- A request only sends, and what is not one sends nothing.
abbrev pub IsOneSided : {I J : Type 0} → Bool → PeerApi I J → PeerApi I J → Type 0
IsOneSided true x x' = OnlySends x x'
IsOneSided false x x' = x'.sent ≡ x.sent

module _ (json : JsonOps) (index : SearchIndex json.Json) (is_peer_id : Text → Bool)
    (classify : Torrent json.Json → Torrent json.Json) (rejection_reason : Torrent json.Json → Text)
    (float : FloatOps) (sort : Sorter float json.Json) where
  open json use {Json}

  insert_from_peer_sent :
      (now_ms : ℤ) (obj : Json) (track : Bool) (x : PeerApi index.State Json)
      → (insert_from_peer json index classify rejection_reason now_ms obj track x).1.sent ≡ x.sent
  unfolding insert_from_peer
  insert_from_peer_sent now_ms obj track x = ground arith

  insert_all_sent :
      (now_ms : ℤ) (vs : List Json) (track : Bool) (x : PeerApi index.State Json)
      → (insert_all json index classify rejection_reason now_ms vs track x).sent ≡ x.sent
  unfolding insert_all
  insert_all_sent now_ms [] track x = refl
  insert_all_sent now_ms (v ∷ vs) track x =
      let y =
        if json.is_object v
        then (insert_from_peer json index classify rejection_reason now_ms v track x).1
        else x in
      insert_all_sent now_ms vs track y ∙ ground (arith, insert_from_peer_sent now_ms v track x)

  take_feed_sent :
      (now now_ms : ℤ) (obj : Json) (f : Option (Feed Json)) (x : PeerApi index.State Json)
      → (take_feed json index classify rejection_reason float sort now now_ms obj f x).sent ≡ x.sent
  unfolding take_feed
  take_feed_sent now now_ms obj none x = refl
  take_feed_sent now now_ms obj (some f) x =
      let remote = remote_feed json index classify rejection_reason obj in
      let f' =
        from_json_array json float sort now now_ms remote
          (json.value_int64 obj (codes "feedDate") (pos 0)) f in
      ground (
        arith,
        insert_all_sent now_ms (items_of json index classify rejection_reason remote) false
            (record x { feed = some f' }),
      )

  take_torrents_sent :
      (now_ms : ℤ) (torrents : Option Json) (x : PeerApi index.State Json)
      → (take_torrents json index classify rejection_reason now_ms torrents x).sent ≡ x.sent
  unfolding take_torrents
  take_torrents_sent now_ms none x = refl
  take_torrents_sent now_ms (some v) x =
      insert_all_sent now_ms (items_of json index classify rejection_reason v) true x

  -- A message that asks for something changes nothing but what is sent to peers, and all others send
  -- nothing.
  pub handle-IsOneSided :
      (now now_ms : ℤ) (kind : Kind) (peer : Text) (obj : Json) (x : PeerApi index.State Json)
      → IsOneSided (is_request kind) x (
          handle json index is_peer_id classify rejection_reason float sort now now_ms kind peer obj
            x)
  unfolding handle handle_search_request handle_search_files_request handle_top_torrents_request
      handle_torrent_request handle_random_torrents_request handle_feed_request handle_search_result
      handle_search_files_result handle_torrent_response handle_random_torrents_response
      handle_torrent_announce handle_feed_response
  handle-IsOneSided now now_ms search peer obj x =
      if-OnlySends json index is_peer_id _ x _ (send_all-OnlySends json index is_peer_id peer _ _ x)
  handle-IsOneSided now now_ms search_files peer obj x =
      if-OnlySends json index is_peer_id _ x _ (send_all-OnlySends json index is_peer_id peer _ _ x)
  handle-IsOneSided now now_ms top_torrents peer obj x =
      send_to_peer-OnlySends json index is_peer_id peer _ _ x
  handle-IsOneSided now now_ms torrent peer obj x =
      if-OnlySends json index is_peer_id _ x _
        (reply_torrent-OnlySends json index is_peer_id peer _ _ x)
  handle-IsOneSided now now_ms feed peer obj x =
      send_to_peer-OnlySends json index is_peer_id peer _ _ x
  handle-IsOneSided now now_ms random_torrents peer obj x =
      if-OnlySends json index is_peer_id _ x _
        (send_to_peer-OnlySends json index is_peer_id peer _ _ x)
  handle-IsOneSided now now_ms search_response peer obj x = ground arith
  handle-IsOneSided now now_ms search_files_response peer obj x = ground arith
  handle-IsOneSided now now_ms torrent_response peer obj x =
      ground (arith, insert_from_peer_sent now_ms obj true x)
  handle-IsOneSided now now_ms feed_response peer obj x = take_feed_sent now now_ms obj x.feed x
  handle-IsOneSided now now_ms random_torrents_response peer obj x =
      take_torrents_sent now_ms (json.find obj (codes "torrents")) x
  handle-IsOneSided now now_ms torrent_announce peer obj x =
      ground (arith, insert_from_peer_sent now_ms obj false x)
