-- ===== src/Engine/PeerApi/Requests.antt =====
-- native/engine/peer_api.cpp: the requests of other peers that are answered.
use rats_search_tui.Base.{
  ℤ, pos, ltb_ℤ, leb, Bool, true, false, not, List, [], ◌∷◌, Option, none, some, Text, codes,
  length, null, FloatOps, ◌==◌, if◌then◌else◌,
}
use rats_search_tui.Domain.Json.{JsonOps}
use rats_search_tui.Domain.Torrent.{Torrent, SearchHit}
use rats_search_tui.Domain.Codec.{ToJsonOptions, set_all, torrent_to_json, hit_to_json}
use rats_search_tui.Index.{SearchIndex, SearchQuery, TopQuery, lookup_query}
use rats_search_tui.Engine.Feed.{Feed, Sorter, to_json_array}
use rats_search_tui.Engine.PeerApi.{PeerApi, send_to_peer}

-- The options of a call that names none.
abbrev pub plain : ToJsonOptions
plain = record { include_files = false; include_info = true }

-- std::clamp
abbrev pub clamp : ℤ → ℤ → ℤ → ℤ
clamp n low high = if ltb_ℤ n low then low else if ltb_ℤ high n then high else n

module _ (json : JsonOps) (index : SearchIndex json.Json) (is_peer_id : Text → Bool) where
  open json use {
    Json, object, array, of_string, of_int, set, push_back, find, value_string, value_int,
    value_bool,
  }

  -- The wrapper that the options of a request may stand in.
  unfoldable pub navigation : Json → Json
  navigation obj = elim (find obj (codes "navigation")) [ some nav ↦ nav | none ↦ obj ]

  unfoldable pub parse_search_request : Json → SearchQuery
  parse_search_request obj =
      let text = value_string obj (codes "text") [] in
      let nav = navigation obj in
      record (lookup_query (if null text then value_string obj (codes "query") [] else text)) {
        limit = value_int nav (codes "limit") (pos 10);
        offset = value_int nav (codes "index") (pos 0);
        sort = value_string nav (codes "orderBy") [];
        descending = value_bool nav (codes "orderDesc") true;
        safe_search = value_bool nav (codes "safeSearch") false;
        content_type = value_string nav (codes "type") [];
      }

  -- One message for each body, in order.
  unfoldable pub send_all :
      Text → Text → List Json → PeerApi index.State Json → PeerApi index.State Json
  send_all peer type [] x = x
  send_all peer type (body ∷ bodies) x =
      send_all peer type bodies (send_to_peer json is_peer_id peer type body x)

  unfoldable pub hit_bodies : List (SearchHit Json) → List Json
  hit_bodies [] = []
  hit_bodies (hit ∷ hits) = torrent_to_json json hit.torrent plain ∷ hit_bodies hits

  unfoldable pub handle_search_request :
      Text → Json → PeerApi index.State Json → PeerApi index.State Json
  handle_search_request peer obj x =
      let q = parse_search_request obj in
      if leb (length q.text) 2
      then x
      else send_all peer (codes "searchTorrent_response")
          (hit_bodies (index.search_names q x.indexer.index)) x

  path_array : Json → List Text → Json
  path_array arr [] = arr
  path_array arr (p ∷ ps) = path_array (push_back arr (of_string p)) ps

  file_hit_body : SearchHit Json → Json
  unfolding path_array
  file_hit_body hit =
      let result = hit_to_json json hit plain in
      if null hit.matching_paths
      then result
      else set result (codes "path") (path_array array hit.matching_paths)

  unfoldable pub file_hit_bodies : List (SearchHit Json) → List Json
  unfolding file_hit_body
  file_hit_bodies [] = []
  file_hit_bodies (hit ∷ hits) = file_hit_body hit ∷ file_hit_bodies hits

  unfoldable pub handle_search_files_request :
      Text → Json → PeerApi index.State Json → PeerApi index.State Json
  handle_search_files_request peer obj x =
      let q = parse_search_request obj in
      if leb (length q.text) 2
      then x
      else send_all peer (codes "searchFiles_response")
          (file_hit_bodies (index.search_files q x.indexer.index)) x

  unfoldable pub torrent_array : ToJsonOptions → Json → List (Torrent Json) → Json
  torrent_array options arr [] = arr
  torrent_array options arr (t ∷ ts) =
      torrent_array options (push_back arr (torrent_to_json json t options)) ts

  unfoldable pub handle_top_torrents_request :
      Text → Json → PeerApi index.State Json → PeerApi index.State Json
  handle_top_torrents_request peer obj x =
      let nav = navigation obj in
      let type = value_string obj (codes "type") [] in
      let time = value_string nav (codes "time") [] in
      let q : TopQuery = record {
        content_type = type;
        time = time;
        offset = value_int nav (codes "index") (pos 0);
        limit = value_int nav (codes "limit") (pos 20);
      } in
      send_to_peer json is_peer_id peer (codes "topTorrents_response")
        (set_all json object (
          (codes "torrents", torrent_array plain array (index.top q x.indexer.index))
          ∷ (codes "type", of_string type)
          ∷ (codes "time", of_string time)
          ∷ []))
        x

  -- The reply to a request for a torrent, which is none if the index has no such hash.
  unfoldable pub reply_torrent :
      Text
      → ToJsonOptions
      → List (SearchHit Json)
      → PeerApi index.State Json
      → PeerApi index.State Json
  reply_torrent peer options [] x = x
  reply_torrent peer options (hit ∷ hits) x =
      send_to_peer json is_peer_id peer (codes "torrent_response")
        (torrent_to_json json hit.torrent options) x

  unfoldable pub handle_torrent_request :
      Text → Json → PeerApi index.State Json → PeerApi index.State Json
  handle_torrent_request peer obj x =
      let hash = value_string obj (codes "hash") [] in
      let options : Json = elim (find obj (codes "options")) [ some o ↦ o | none ↦ obj ] in
      if not (length hash == 40)
      then x
      else reply_torrent peer
          (record { include_files = value_bool options (codes "files") false; include_info = true })
          (index.search_names (lookup_query hash) x.indexer.index) x

  unfoldable pub handle_random_torrents_request :
      Text → Json → PeerApi index.State Json → PeerApi index.State Json
  handle_random_torrents_request peer obj x =
      let limit = clamp (value_int obj (codes "limit") (pos 5)) (pos 1) (pos 10) in
      if not x.replication_server_enabled
      then x
      else send_to_peer json is_peer_id peer (codes "randomTorrents_response")
          (set_all json object (
            (
              codes "torrents",
              torrent_array (record { include_files = true; include_info = true }) array
                  (index.random limit x.indexer.index),
            )
            ∷ []))
          x

  module _ (float : FloatOps) (sort : Sorter float Json) where
    feed_body : Option (Feed Json) → Json
    feed_body none = set_all json object (
        (codes "feed", array)
        ∷ (codes "feedDate", of_int (pos 0))
        ∷ (codes "size", of_int (pos 0))
        ∷ [])
    feed_body (some f) = set_all json object (
        (codes "feed", to_json_array json float sort (pos 0) (pos (length f.feed)) f)
        ∷ (codes "feedDate", of_int f.feed_date)
        ∷ (codes "size", of_int (pos (length f.feed)))
        ∷ [])

    unfoldable pub handle_feed_request : Text → PeerApi index.State Json → PeerApi index.State Json
    unfolding feed_body
    handle_feed_request peer x =
        send_to_peer json is_peer_id peer (codes "feed_response") (feed_body x.feed) x
