-- ===== src/Platform/Config/Loaded.antt =====
-- What native/platform/config.cpp makes sure of in a configuration that it loads.
use rats_search_tui.Base.{
  pos, ◌≤ℤ◌, ◌≡◌, refl, Bool, true, List, Option, none, some, Text, codes, Option-cases, inl, inr,
  if_intro, arith,
}
use mathlib.Core.Path.{subst}
use rats_search_tui.Domain.Json.{JsonOps}
use rats_search_tui.Domain.Json.Texts.{TextOps}
use rats_search_tui.Platform.Config.{
  FilterConfig, Config, default_config, clamp, repaired, read_values, names_of, filters_of,
  read_object, read_document, parsed, load,
}

-- The services rely on this of a configuration.
pub record IsUsable (c : Config) : Type 0 where
  pub enough_peers : pos 10 ≤ℤ c.max_peers
  pub few_peers : c.max_peers ≤ℤ pos 1000
  pub serves : c.p2p_replication ≡ true → c.p2p_replication_server ≡ true
  pub no_debt : pos 0 ≤ℤ c.index_max_torrents

repaired-IsUsable : (c : Config) → IsUsable (repaired c)
unfolding repaired clamp
repaired-IsUsable c = ground arith

module _ (json : JsonOps) where
  -- A configuration that load returned, or none.
  abbrev IsLoaded : Option Config → Type 0
  IsLoaded none = Unit
  IsLoaded (some c) = IsUsable c

  repaired_with-IsUsable :
      (c : Config) (allow deny : List Text) (filters : FilterConfig)
      → IsUsable
          (record (repaired c) { tracker_allow = allow; tracker_deny = deny; filters = filters })
  repaired_with-IsUsable c allow deny filters =
      let v = repaired-IsUsable c in
      record {
        enough_peers = v.enough_peers;
        few_peers = v.few_peers;
        serves = v.serves;
        no_debt = v.no_debt;
      }

  read_object-IsLoaded : (d : Bool) (j : json.Json) → IsLoaded (read_object json d j)
  unfolding read_object
  read_object-IsLoaded d j =
      elim (Option-cases (names_of json (json.find j (codes "trackerAllow")))) [
        | inl e ↦ rw (e, IsLoaded) tt
        | inr (allow, e) ↦ elim (Option-cases (names_of json (json.find j (codes "trackerDeny")))) [
          | inl e' ↦ rw (e, e', IsLoaded) tt
          | inr (deny, e') ↦
              rw (e, e', IsLoaded)
                (repaired_with-IsUsable (read_values json d j) allow deny
                  (filters_of json (json.find j (codes "filters"))))
        ]
      ]

  default-IsUsable : (d : Bool) → IsUsable (default_config d)
  default-IsUsable d = record {
    enough_peers = omega arith;
    few_peers = omega arith;
    serves = λ e. refl;
    no_debt = omega arith;
  }

  read_document-IsLoaded : (d : Bool) (doc : Option json.Json) → IsLoaded (read_document json d doc)
  unfolding read_document
  read_document-IsLoaded d none = default-IsUsable d
  read_document-IsLoaded d (some j) =
      if_intro IsLoaded (json.is_object j) (read_object-IsLoaded d j) (default-IsUsable d)

module _ (json : JsonOps) (texts : TextOps json) where
  -- Whatever the configuration file holds, a configuration that is loaded has a cap on peers between
  -- 10 and 1000, answers replication requests if it makes them, and has a cap on torrents that is not
  -- negative.
  pub load-IsUsable :
      (file_index_default : Bool) (file : Option texts.Content) (c : Config)
      → load json texts file_index_default file ≡ some c
      → IsUsable c
  unfolding load
  load-IsUsable d file c e =
      subst (IsLoaded json) e (read_document-IsLoaded json d (parsed json texts file))
