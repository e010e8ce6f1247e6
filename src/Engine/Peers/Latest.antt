-- ===== src/Engine/Peers/Latest.antt =====
-- The map of peers of native/engine/peer_registry.cpp against the history of messages.
use rats_search_tui.Base.{
  ℤ, ℕ, ◌≡◌, refl, sym, ◌∙◌, ap, Bool, true, false, List, [], ◌∷◌, Option, none, some, Text,
  eq_text, eq_text→eq, arith, if◌then◌else◌, Bool-cases, inl, inr,
}
use rats_search_tui.Domain.Peer.{PeerStats}
use rats_search_tui.Engine.Peers.{
  PeerRegistry, lookup, update_our_stats, on_peer_connected, erase, assign, on_peer_disconnected,
  on_client_info,
}

pub data Event : Type 0 where
  updates : ℤ → ℤ → ℤ → Event
  connects : Bool → ℕ → Text → Event
  disconnects : Text → Event
  informs : ℤ → Text → PeerStats → Event

unfoldable pub handle : PeerRegistry → Event → PeerRegistry
handle r (updates torrents files size) = update_our_stats torrents files size r
handle r (connects readable n id) = on_peer_connected readable n id r
handle r (disconnects id) = on_peer_disconnected id r
handle r (informs now id stats) = on_client_info now id stats r

unfoldable pub run : PeerRegistry → List Event → PeerRegistry
run r [] = r
run r (e ∷ es) = run (handle r e) es

-- What the last message about a peer leaves of it.
abbrev pub latest : Text → Option PeerStats → List Event → Option PeerStats
latest id s [] = s
latest id s (updates torrents files size ∷ es) = latest id s es
latest id s (connects readable n j ∷ es) = latest id s es
latest id s (disconnects j ∷ es) = latest id (if eq_text j id then none else s) es
latest id s (informs now j stats ∷ es) =
    latest id (if eq_text j id then some (record stats { connected_at = now }) else s) es

eq_text_via : (k j id : Text) → eq_text k j ≡ true → eq_text k id ≡ eq_text j id
eq_text_via k j id e = ap (λ (t : Text). eq_text t id) (eq_text→eq k j e)

other_key : (k j id : Text) → eq_text k j ≡ false → eq_text j id ≡ true → eq_text k id ≡ false
other_key k j id e q = ap (eq_text k) (sym (eq_text→eq j id q)) ∙ e

lookup-erase :
    (id j : Text) (peers : List (Text × PeerStats))
    → lookup id (erase j peers) ≡ (if eq_text j id then none else lookup id peers)
unfolding erase
lookup-erase id j [] = ground arith
lookup-erase id j ((k, s) ∷ peers) = elim (Bool-cases (eq_text k j)) [
  | inl e ↦ rw (e, eq_text_via k j id e, lookup-erase id j peers) (ground arith)
  | inr e ↦ elim (Bool-cases (eq_text j id)) [
    | inl q ↦ rw (e, other_key k j id e q) (lookup-erase id j peers ∙ rw q refl)
    | inr q ↦ rw (e, q, lookup-erase id j peers) (ground arith)
  ]
]

lookup-assign :
    (id j : Text) (stats : PeerStats) (peers : List (Text × PeerStats))
    → lookup id (assign j stats peers) ≡ (if eq_text j id then some stats else lookup id peers)
unfolding assign
lookup-assign id j stats [] = refl
lookup-assign id j stats ((k, s) ∷ peers) = elim (Bool-cases (eq_text k j)) [
  | inl e ↦ rw (e, eq_text_via k j id e) (ground arith)
  | inr e ↦ elim (Bool-cases (eq_text j id)) [
    | inl q ↦ rw (e, other_key k j id e q) (lookup-assign id j stats peers ∙ rw q refl)
    | inr q ↦ rw (e, q, lookup-assign id j stats peers) (ground arith)
  ]
]

-- After any connections, disconnections and messages, in any order, the map holds for a peer what
-- its last "client_info" said, stamped with the time at which that message arrived, so that each
-- further one replaces the time of the first, or nothing if it has disconnected since; a peer that no event is about keeps what was there.
pub peers-latest :
    (es : List Event) (r : PeerRegistry) (id : Text)
    → lookup id (run r es).peers ≡ latest id (lookup id r.peers) es
unfolding run handle update_our_stats on_peer_connected on_peer_disconnected on_client_info
peers-latest [] r id = refl
peers-latest (updates torrents files size ∷ es) r id = peers-latest es _ id
peers-latest (connects readable n j ∷ es) r id = peers-latest es _ id
peers-latest (disconnects j ∷ es) r id =
    peers-latest es _ id ∙ ap (λ (s : Option PeerStats). latest id s es) (lookup-erase id j r.peers)
peers-latest (informs now j stats ∷ es) r id =
    peers-latest es _ id
    ∙ ap (λ (s : Option PeerStats). latest id s es)
        (lookup-assign id j (record stats { connected_at = now }) r.peers)
