-- ===== src/Domain/Peer.antt =====
-- native/domain/peer.h: what a peer says of itself in the "client_info" handshake.
use rats_search_tui.Base.{
  ℤ, pos, [], List, ◌∷◌, Option, none, some, Text, codes, not, if◌then◌else◌,
}
use rats_search_tui.Domain.Json.{JsonOps}
use rats_search_tui.Domain.Codec.{set_all}
pub mod RoundTrip

pub record PeerStats : Type 0 where
  pub client_version : Text
  pub torrents : ℤ
  pub files : ℤ
  pub total_size : ℤ
  pub peers_connected : ℤ
  pub connected_at : ℤ

module _ (json : JsonOps) where
  open json use {
    Json, object, of_string, of_int, is_object, find, value_string, value_int64, value_int,
  }

  abbrev pub stats_members : PeerStats → List (Text × Json)
  stats_members s =
      (codes "clientVersion", of_string s.client_version)
      ∷ (codes "torrents", of_int s.torrents)
      ∷ (codes "files", of_int s.files)
      ∷ (codes "totalSize", of_int s.total_size)
      ∷ (codes "peersConnected", of_int s.peers_connected)
      ∷ (codes "connectedAt", of_int s.connected_at)
      ∷ []

  unfoldable pub stats_to_json : PeerStats → Json
  stats_to_json s = set_all json object (stats_members s)

  unfoldable pub default_stats : PeerStats
  default_stats = record {
    client_version = [];
    torrents = pos 0;
    files = pos 0;
    total_size = pos 0;
    peers_connected = pos 0;
    connected_at = pos 0;
  }

  -- The value under `key`, or under the legacy key where `key` is missing.
  unfoldable pub either_key : Json → Text → Text → ℤ
  either_key obj key legacy = elim (find obj key) [
    | some _ ↦ value_int64 obj key (pos 0)
    | none ↦ value_int64 obj legacy (pos 0)
  ]

  unfoldable pub stats_from_json : Json → PeerStats
  stats_from_json obj = if not (is_object obj) then default_stats else record {
    client_version = value_string obj (codes "clientVersion") [];
    torrents = either_key obj (codes "torrents") (codes "torrentsCount");
    files = either_key obj (codes "files") (codes "filesCount");
    total_size = value_int64 obj (codes "totalSize") (pos 0);
    peers_connected = value_int obj (codes "peersConnected") (pos 0);
    connected_at = value_int64 obj (codes "connectedAt") (pos 0);
  }
