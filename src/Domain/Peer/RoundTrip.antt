-- ===== src/Domain/Peer/RoundTrip.antt =====
-- Reading what native/domain/peer.h writes, under the new keys and under the legacy ones.
use rats_search_tui.Base.{
  ◌⊎◌, inl, inr, ℤ, pos, ◌≡◌, refl, ◌∙◌, [], List, ◌∷◌, Option, none, some, Text, codes, true,
}
use rats_search_tui.Domain.Json.{JsonOps, JsonLaws, IsInt32, IsInt64}
use rats_search_tui.Domain.Codec.{set_all}
use rats_search_tui.Domain.Codec.Files.{last_value, set_all-is_object, find-set_all-object}
use rats_search_tui.Domain.Peer.{
  PeerStats, stats_members, stats_to_json, either_key, stats_from_json,
}

module _ (json : JsonOps) (laws : JsonLaws json) where
  open json use {Json, object, of_string, of_int}

  -- Statistics whose numbers are in the range of their C++ types.
  pub record IsSendable (s : PeerStats) : Type 0 where
    pub torrents : IsInt64 s.torrents
    pub files : IsInt64 s.files
    pub total_size : IsInt64 s.total_size
    pub peers_connected : IsInt32 s.peers_connected
    pub connected_at : IsInt64 s.connected_at

  -- The members that earlier versions of the program sent.
  abbrev pub legacy_members : PeerStats → List (Text × Json)
  legacy_members s =
      (codes "clientVersion", of_string s.client_version)
      ∷ (codes "torrentsCount", of_int s.torrents)
      ∷ (codes "filesCount", of_int s.files)
      ∷ (codes "totalSize", of_int s.total_size)
      ∷ (codes "peersConnected", of_int s.peers_connected)
      ∷ (codes "connectedAt", of_int s.connected_at)
      ∷ []

  module _ (ps : List (Text × Json)) where
    abbrev sent : Json
    sent = set_all json object ps

    is_obj : json.is_object sent ≡ true
    is_obj = set_all-is_object json laws ps object laws.object_is_object

    abbrev value : Text → Option Json
    value k = last_value json laws k none ps

    read_int64 :
        (k : Text) (n : ℤ)
        → value k ≡ some (of_int n)
        → IsInt64 n
        → json.value_int64 sent k (pos 0) ≡ n
    read_int64 k n e h =
        laws.value_int64_present sent k n (pos 0) is_obj (find-set_all-object json laws ps k ∙ e) h

    read_either :
        (k legacy : Text) (n : ℤ)
        → (value k ≡ some (of_int n)) ⊎ ((value k ≡ none) × (value legacy ≡ some (of_int n)))
        → IsInt64 n
        → either_key json sent k legacy ≡ n
    unfolding either_key
    read_either k legacy n (inl e) h =
        rw (find-set_all-object json laws ps k, e, either_key) (read_int64 k n e h)
    read_either k legacy n (inr (e, e')) h =
        rw (find-set_all-object json laws ps k, e, either_key) (read_int64 legacy n e' h)

    -- Members that hold the statistics, each of the two counts under its new or its legacy key.
    record Holds (s : PeerStats) : Type 0 where
      client_version : value (codes "clientVersion") ≡ some (of_string s.client_version)
      torrents :
          (value (codes "torrents") ≡ some (of_int s.torrents))
          ⊎ ((value (codes "torrents") ≡ none)
              × (value (codes "torrentsCount") ≡ some (of_int s.torrents)))
      files :
          (value (codes "files") ≡ some (of_int s.files))
          ⊎ ((value (codes "files") ≡ none) × (value (codes "filesCount") ≡ some (of_int s.files)))
      total_size : value (codes "totalSize") ≡ some (of_int s.total_size)
      peers_connected : value (codes "peersConnected") ≡ some (of_int s.peers_connected)
      connected_at : value (codes "connectedAt") ≡ some (of_int s.connected_at)

    read_back : (s : PeerStats) → Holds s → IsSendable s → stats_from_json json sent ≡ s
    unfolding stats_from_json
    read_back s x w = rw is_obj (λ i. record {
      client_version =
          laws.value_string_present sent (codes "clientVersion") s.client_version [] is_obj
            (find-set_all-object json laws ps (codes "clientVersion") ∙ x.client_version) i;
      torrents =
          read_either (codes "torrents") (codes "torrentsCount") s.torrents x.torrents w.torrents i;
      files = read_either (codes "files") (codes "filesCount") s.files x.files w.files i;
      total_size = read_int64 (codes "totalSize") s.total_size x.total_size w.total_size i;
      peers_connected =
          laws.value_int_present sent (codes "peersConnected") s.peers_connected (pos 0) is_obj
            (find-set_all-object json laws ps (codes "peersConnected") ∙ x.peers_connected)
            w.peers_connected i;
      connected_at =
          read_int64 (codes "connectedAt") s.connected_at x.connected_at w.connected_at i;
    })

  -- Statistics in the range of their types are read back from the JSON that they are sent as, and
  -- also from the JSON of earlier versions, which has legacy keys for the counts of torrents and
  -- files.
  pub stats-round_trip :
      (s : PeerStats)
      → IsSendable s
      → (stats_from_json json (stats_to_json json s) ≡ s)
        × (stats_from_json json (set_all json object (legacy_members s)) ≡ s)
  unfolding stats_to_json
  stats-round_trip s w = (
    read_back (stats_members json s) s
        (record {
          client_version = refl;
          torrents = inl refl;
          files = inl refl;
          total_size = refl;
          peers_connected = refl;
          connected_at = refl;
        })
        w,
    read_back (legacy_members s) s
        (record {
          client_version = refl;
          torrents = inr (refl, refl);
          files = inr (refl, refl);
          total_size = refl;
          peers_connected = refl;
          connected_at = refl;
        })
        w,
  )
