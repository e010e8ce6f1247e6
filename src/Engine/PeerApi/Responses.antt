-- ===== src/Engine/PeerApi/Responses.antt =====
-- native/engine/peer_api.cpp: the replies and announcements of other peers that are taken in, and
-- the dispatch of a message by its type. The classifier and the filter's reason are arguments, as in
-- Engine/Indexer; `now` and `now_ms` are the two readings of the clock, by the feed and the codec.
use rats_search_tui.Base.{
  ℤ, pos, ltb_ℤ, eq_ℤ, Bool, true, false, not, ◌&&◌, ◌||◌, List, [], ◌∷◌, ◌++◌, Option, none, some,
  Text, codes, eq_text, length, null, FloatOps, ◌==◌, if◌then◌else◌,
}
use rats_search_tui.Domain.Json.{JsonOps}
use rats_search_tui.Domain.Torrent.{Torrent, SearchHit}
use rats_search_tui.Domain.Codec.{torrent_from_json, hit_from_json, texts_in}
use rats_search_tui.Index.{SearchIndex}
use rats_search_tui.Engine.Indexer.{handle_discovered}
use rats_search_tui.Engine.Replication.{Replication, notify_received}
use rats_search_tui.Engine.Feed.{Feed, Sorter, from_json_array}
use rats_search_tui.Engine.PeerApi.{PeerApi}
use rats_search_tui.Engine.PeerApi.Requests.{
  handle_search_request, handle_search_files_request, handle_top_torrents_request,
  handle_torrent_request, handle_random_torrents_request, handle_feed_request,
}

-- Whether the feed of a reply replaces ours.
unfoldable pub is_replaced : {J : Type 0} → ℤ → ℤ → Feed J → Bool
is_replaced remote_size remote_date f =
    let local_size = pos (length f.feed) in
    ltb_ℤ local_size remote_size || (eq_ℤ remote_size local_size && ltb_ℤ f.feed_date remote_date)

unfoldable pub notified : Option Replication → Option Replication
notified none = none
notified (some r) = some (notify_received r)

module _ (json : JsonOps) (index : SearchIndex json.Json)
    (classify : Torrent json.Json → Torrent json.Json)
    (rejection_reason : Torrent json.Json → Text) where
  open json use {
    Json, array, is_object, is_array, find, elements, get_string, value_string, value_int,
    value_int64,
  }

  unfoldable pub insert_from_peer :
      ℤ → Json → Bool → PeerApi index.State Json → Bool × PeerApi index.State Json
  insert_from_peer now_ms obj track_replication x =
      let torrent = torrent_from_json json now_ms obj in
      if not (length torrent.hash == 40)
      then (false, x)
      else let (inserted, indexer) =
          handle_discovered index classify rejection_reason torrent x.indexer in
        let x' : PeerApi index.State Json = record x { indexer = indexer } in
        if not inserted then (false, x') else (
          true,
          if track_replication then record x' { replication = notified x'.replication } else x',
        )

  -- Each object of a reply is inserted, in order.
  unfoldable pub insert_all :
      ℤ → List Json → Bool → PeerApi index.State Json → PeerApi index.State Json
  insert_all now_ms [] track_replication x = x
  insert_all now_ms (v ∷ vs) track_replication x =
      insert_all now_ms vs track_replication
        (if is_object v then (insert_from_peer now_ms v track_replication x).1 else x)

  -- The hash of a reply, as it stands there.
  unfoldable pub hash_of : Json → Text
  hash_of obj =
      let hash = value_string obj (codes "hash") [] in
      if null hash then value_string obj (codes "info_hash") [] else hash

  -- An exception of get leaves this handler and the next with everything as it was.
  unfoldable pub handle_search_result :
      ℤ → Text → Json → PeerApi index.State Json → PeerApi index.State Json
  handle_search_result now_ms peer obj x =
      if null (hash_of obj) then x else elim (hit_from_json json now_ms obj) [
        | none ↦ x
        | some h ↦
            let hit : SearchHit Json = record h { remote = true; source_peer_id = peer } in
            record x { found = x.found ++ hit ∷ [] }
      ]

  unfoldable pub legacy_paths : Json → Option (List Text)
  legacy_paths obj = texts_in json (find obj (codes "path"))

  -- The paths of a hit, with those of the legacy member where it has none.
  unfoldable pub paths_of_hit : Json → SearchHit Json → Option (List Text)
  paths_of_hit obj h = if null h.matching_paths then legacy_paths obj else some h.matching_paths

  unfoldable pub handle_search_files_result :
      ℤ → Text → Json → PeerApi index.State Json → PeerApi index.State Json
  handle_search_files_result now_ms peer obj x = elim (hit_from_json json now_ms obj) [
    | none ↦ x
    | some h ↦ elim (paths_of_hit obj h) [
      | none ↦ x
      | some paths ↦
          let hit : SearchHit Json = record h {
            from_file_match = true;
            remote = true;
            source_peer_id = peer;
            matching_paths = paths;
          } in
          record x { found_files = x.found_files ++ hit ∷ [] }
    ]
  ]

  unfoldable pub handle_torrent_response :
      ℤ → Json → PeerApi index.State Json → PeerApi index.State Json
  handle_torrent_response now_ms obj x =
      if not (length (hash_of obj) == 40) then x else (insert_from_peer now_ms obj true x).1

  -- The elements of what a reply holds, which are none where it is no array.
  unfoldable pub items_of : Json → List Json
  items_of v = if is_array v then elements v else []

  unfoldable pub remote_feed : Json → Json
  remote_feed obj = elim (find obj (codes "feed")) [ some v ↦ v | none ↦ array ]

  unfoldable pub take_torrents :
      ℤ → Option Json → PeerApi index.State Json → PeerApi index.State Json
  take_torrents now_ms none x = x
  take_torrents now_ms (some torrents) x = insert_all now_ms (items_of torrents) true x

  unfoldable pub handle_random_torrents_response :
      ℤ → Json → PeerApi index.State Json → PeerApi index.State Json
  handle_random_torrents_response now_ms obj x =
      take_torrents now_ms (find obj (codes "torrents")) x

  unfoldable pub handle_torrent_announce :
      ℤ → Json → PeerApi index.State Json → PeerApi index.State Json
  handle_torrent_announce now_ms obj x =
      if null (value_string obj (codes "info_hash") []) || null (value_string obj (codes "name") [])
      then x
      else (insert_from_peer now_ms obj false x).1

  module _ (float : FloatOps) (sort : Sorter float Json) where
    unfoldable pub take_feed :
        ℤ → ℤ → Json → Option (Feed Json) → PeerApi index.State Json → PeerApi index.State Json
    take_feed now now_ms obj none x = x
    take_feed now now_ms obj (some f) x =
        let remote = remote_feed obj in
        let items = items_of remote in
        let remote_size = value_int obj (codes "size") (pos (length items)) in
        let remote_date = value_int64 obj (codes "feedDate") (pos 0) in
        let f' = from_json_array json float sort now now_ms remote remote_date f in
        if is_replaced remote_size remote_date f
        then insert_all now_ms items false (record x { feed = some f' })
        else x

    unfoldable pub handle_feed_response :
        ℤ → ℤ → Json → PeerApi index.State Json → PeerApi index.State Json
    handle_feed_response now now_ms obj x = take_feed now now_ms obj x.feed x

-- The messages that the front end has a handler for.
pub data Kind : Type 0 where
  search : Kind
  search_files : Kind
  top_torrents : Kind
  torrent : Kind
  feed : Kind
  random_torrents : Kind
  search_response : Kind
  search_files_response : Kind
  torrent_response : Kind
  feed_response : Kind
  random_torrents_response : Kind
  torrent_announce : Kind

-- The types that the handlers are registered for.
abbrev pub handlers : List (Text × Kind)
handlers =
    (codes "searchTorrent", search)
    ∷ (codes "searchFiles", search_files)
    ∷ (codes "topTorrents", top_torrents)
    ∷ (codes "torrent", torrent)
    ∷ (codes "feed", feed)
    ∷ (codes "randomTorrents", random_torrents)
    ∷ (codes "searchTorrent_response", search_response)
    ∷ (codes "searchFiles_response", search_files_response)
    ∷ (codes "torrent_response", torrent_response)
    ∷ (codes "feed_response", feed_response)
    ∷ (codes "randomTorrents_response", random_torrents_response)
    ∷ (codes "torrentAnnounce", torrent_announce)
    ∷ []

unfoldable pub find_handler : Text → List (Text × Kind) → Option Kind
find_handler type [] = none
find_handler type ((t, k) ∷ ks) = if eq_text t type then some k else find_handler type ks

module _ (json : JsonOps) (index : SearchIndex json.Json) (is_peer_id : Text → Bool)
    (classify : Torrent json.Json → Torrent json.Json) (rejection_reason : Torrent json.Json → Text)
    (float : FloatOps) (sort : Sorter float json.Json) where
  open json use {Json}

  unfoldable pub handle :
      ℤ → ℤ → Kind → Text → Json → PeerApi index.State Json → PeerApi index.State Json
  handle now now_ms search peer obj x = handle_search_request json index is_peer_id peer obj x
  handle now now_ms search_files peer obj x =
      handle_search_files_request json index is_peer_id peer obj x
  handle now now_ms top_torrents peer obj x =
      handle_top_torrents_request json index is_peer_id peer obj x
  handle now now_ms torrent peer obj x = handle_torrent_request json index is_peer_id peer obj x
  handle now now_ms feed peer obj x = handle_feed_request json index is_peer_id float sort peer x
  handle now now_ms random_torrents peer obj x =
      handle_random_torrents_request json index is_peer_id peer obj x
  handle now now_ms search_response peer obj x =
      handle_search_result json index classify rejection_reason now_ms peer obj x
  handle now now_ms search_files_response peer obj x =
      handle_search_files_result json index classify rejection_reason now_ms peer obj x
  handle now now_ms torrent_response peer obj x =
      handle_torrent_response json index classify rejection_reason now_ms obj x
  handle now now_ms feed_response peer obj x =
      handle_feed_response json index classify rejection_reason float sort now now_ms obj x
  handle now now_ms random_torrents_response peer obj x =
      handle_random_torrents_response json index classify rejection_reason now_ms obj x
  handle now now_ms torrent_announce peer obj x =
      handle_torrent_announce json index classify rejection_reason now_ms obj x

  -- A message that comes in.
  unfoldable pub receive :
      ℤ → ℤ → Text → Text → Json → PeerApi index.State Json → PeerApi index.State Json
  receive now now_ms type peer obj x = elim (find_handler type handlers) [
    | none ↦ x
    | some kind ↦ handle now now_ms kind peer obj x
  ]
