-- ===== src/Engine/PeerApi/Taken.antt =====
-- What each message of native/engine/peer_api.cpp puts into the index and the replication's accounts.
use rats_search_tui.Base.{Bool, true, false}
use rats_search_tui.Domain.Torrent.{Torrent}
use rats_search_tui.Engine.Indexer.{Indexer}
use rats_search_tui.Engine.Feed.{Feed}
use rats_search_tui.Engine.PeerApi.{PeerApi}
use rats_search_tui.Engine.PeerApi.Responses.{
  Kind, search, search_files, top_torrents, torrent, feed, random_torrents, search_response,
  search_files_response, torrent_response, feed_response, random_torrents_response,
  torrent_announce,
}

-- The messages whose torrents count in the replication.
abbrev pub counts : Kind → Bool
counts search = false
counts search_files = false
counts top_torrents = false
counts torrent = false
counts feed = false
counts random_torrents = false
counts search_response = false
counts search_files_response = false
counts torrent_response = true
counts feed_response = false
counts random_torrents_response = true
counts torrent_announce = false
