-- ===== src/Engine/Peers.antt =====
-- native/engine/peer_registry.h and peer_registry.cpp: the handshake and what peers say of
-- themselves. Whether the peer's id can be read, and how many peers the node has, are arguments.
pub mod Latest
use rats_search_tui.Base.{
  ℤ, pos, ◌+ℤ◌, wrap64, Bool, List, [], ◌∷◌, Option, none, some, Text, eq_text, if◌then◌else◌,
  wrap32, ℕ,
}
use rats_search_tui.Domain.Peer.{PeerStats}

pub record PeerRegistry : Type 0 where
  pub client_version : Text
  pub our_torrents : ℤ
  pub our_files : ℤ
  pub our_total_size : ℤ
  pub peers : List (Text × PeerStats)
  -- The "client_info" messages sent, and the peers that the callback was told of.
  pub sent : List (Text × PeerStats)
  pub connected : List Text

unfoldable pub update_our_stats : ℤ → ℤ → ℤ → PeerRegistry → PeerRegistry
update_our_stats torrents files total_size r = record r {
  our_torrents = torrents;
  our_files = files;
  our_total_size = total_size;
}

unfoldable pub our_stats : ℕ → PeerRegistry → PeerStats
our_stats peer_count r = record {
  client_version = r.client_version;
  torrents = r.our_torrents;
  files = r.our_files;
  total_size = r.our_total_size;
  peers_connected = wrap32 (pos peer_count);
  connected_at = pos 0;
}

unfoldable pub on_peer_connected : Bool → ℕ → Text → PeerRegistry → PeerRegistry
on_peer_connected readable peer_count id r = record r {
  sent = if readable then (id, our_stats peer_count r) ∷ r.sent else r.sent;
  connected = id ∷ r.connected;
}

abbrev pub lookup : Text → List (Text × PeerStats) → Option PeerStats
lookup id [] = none
lookup id ((k, s) ∷ peers) = if eq_text k id then some s else lookup id peers

unfoldable pub erase : Text → List (Text × PeerStats) → List (Text × PeerStats)
erase id [] = []
erase id ((k, s) ∷ peers) =
    let rest = erase id peers in if eq_text k id then rest else (k, s) ∷ rest

-- peers_[id] = stats
unfoldable pub assign : Text → PeerStats → List (Text × PeerStats) → List (Text × PeerStats)
assign id stats [] = (id, stats) ∷ []
assign id stats ((k, s) ∷ peers) =
    let rest = assign id stats peers in if eq_text k id then (k, stats) ∷ peers else (k, s) ∷ rest

unfoldable pub on_peer_disconnected : Text → PeerRegistry → PeerRegistry
on_peer_disconnected id r = record r { peers = erase id r.peers }

unfoldable pub on_client_info : ℤ → Text → PeerStats → PeerRegistry → PeerRegistry
on_client_info now id stats r = record r {
  peers = assign id (record stats { connected_at = now }) r.peers;
}

unfoldable pub sum_torrents : ℤ → List (Text × PeerStats) → ℤ
sum_torrents total [] = total
sum_torrents total ((k, s) ∷ peers) = sum_torrents (wrap64 (total +ℤ s.torrents)) peers

unfoldable pub remote_torrents_count : PeerRegistry → ℤ
remote_torrents_count r = sum_torrents (pos 0) r.peers
