-- ===== src/Engine/PeerApi/Tests.antt =====
-- The theorems on native/engine/peer_api.cpp at concrete inputs.
use rats_search_tui.Base.{pos, true, false, List, [], some, none, codes}
use rats_search_tui.Domain.Torrent.{Torrent}
use rats_search_tui.Domain.Json.Sample.{sample, Value, items, item, fields, entry}
use rats_search_tui.Domain.Codec.{torrent_to_json}
use rats_search_tui.Domain.Samples.{ubuntu}
use rats_search_tui.Engine.Replication
use rats_search_tui.Engine.PeerApi.{PeerApi}
use rats_search_tui.Engine.PeerApi.Requests.{plain}

abbrev front : PeerApi (List (Torrent Value)) Value
front = record {
  indexer = record {
    index = [];
    max_torrents = pos 100;
    record_count = pos 0;
    prune_in_flight = false;
    prunes = 0;
    indexed = [];
  };
  replication = some Replication.init;
  replication_server_enabled = true;
  feed = none;
  sent = [];
  broadcasts = [];
  found = [];
  found_files = [];
}

-- A reply with one torrent.
abbrev reply : Value
reply = entry fields (codes "torrents") (item items (torrent_to_json sample ubuntu plain))
