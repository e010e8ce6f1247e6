-- ===== src/Platform/Config/RoundTrip.antt =====
-- Reading the configuration that native/platform/config.cpp writes.
use rats_search_tui.Base.{
  pos, ◌≡◌, refl, ap, ◌∙◌, Bool, true, false, List, [], ◌∷◌, map, Option, some, Text, codes,
}
use rats_search_tui.Domain.Json.{JsonOps, JsonLaws, IsInt32, IsInt64}
use rats_search_tui.Domain.Json.Texts.{TextOps, ParseLaws}
use rats_search_tui.Domain.Json.Arrays.{push_all, pushed}
use rats_search_tui.Domain.Codec.Members.{
  made, is_obj, look, read_text, read_int, read_int64, read_flag,
}
use rats_search_tui.Platform.Disk.{Disk, in_place, in_place_reads}
use rats_search_tui.Platform.Config.{
  FilterConfig, Config, default_config, repaired, filters_to_json, filters_from_json, flag_of,
  read_values, get_strings, names_of, filters_of, read_object, read_document, load, config_members,
  config_to_json, save,
}

-- Numbers in the range of their C++ types.
pub record IsInRange (c : Config) : Type 0 where
  pub walk_interval : IsInt32 c.walk_interval
  pub dht_port : IsInt32 c.dht_port
  pub p2p_port : IsInt32 c.p2p_port
  pub max_peers : IsInt32 c.max_peers
  pub index_max_torrents : IsInt32 c.index_max_torrents
  pub size_min : IsInt64 c.filters.size_min
  pub size_max : IsInt64 c.filters.size_max
  pub max_files : IsInt32 c.filters.max_files

module _ (json : JsonOps) (laws : JsonLaws json) where
  open json use {Json, object, of_string, of_int, of_bool, find}

  abbrev filter_members : FilterConfig → List (Text × Json)
  filter_members f =
      (codes "sizeMin", of_int f.size_min)
      ∷ (codes "sizeMax", of_int f.size_max)
      ∷ (codes "maxFiles", of_int f.max_files)
      ∷ (codes "namingRegExp", of_string f.naming_reg_exp)
      ∷ (codes "namingRegExpNegative", of_bool f.naming_reg_exp_negative)
      ∷ (codes "adultFilter", of_bool f.adult_filter)
      ∷ (codes "contentType", of_string f.content_type)
      ∷ []

  filters-round_trip :
      (f : FilterConfig)
      → IsInt64 f.size_min
      → IsInt64 f.size_max
      → IsInt32 f.max_files
      → filters_from_json json (filters_to_json json f) ≡ f
  unfolding filters_from_json filters_to_json
  filters-round_trip f lo hi n =
      let ps = filter_members f in
      rw (is_obj json laws ps) (λ i. record {
        size_min = read_int64 json laws ps (codes "sizeMin") f.size_min (pos 0) refl lo i;
        size_max = read_int64 json laws ps (codes "sizeMax") f.size_max (pos 0) refl hi i;
        max_files = read_int json laws ps (codes "maxFiles") f.max_files (pos 0) refl n i;
        naming_reg_exp = read_text json laws ps (codes "namingRegExp") f.naming_reg_exp [] refl i;
        naming_reg_exp_negative =
            read_flag json laws ps (codes "namingRegExpNegative") f.naming_reg_exp_negative false
              refl i;
        adult_filter = read_flag json laws ps (codes "adultFilter") f.adult_filter false refl i;
        content_type = read_text json laws ps (codes "contentType") f.content_type [] refl i;
      })

  get_strings-map : (ts : List Text) → get_strings json (map of_string ts) ≡ some ts
  unfolding get_strings
  get_strings-map [] = refl
  get_strings-map (t ∷ ts) =
      rw (laws.is_string_of_string t, get_strings-map ts, laws.get_string_of_string t) refl

  names-round_trip :
      (ts : List Text)
      → names_of json (some (push_all json json.array (map of_string ts))) ≡ some ts
  unfolding names_of
  names-round_trip ts =
      let (is_arr, eq) = pushed json laws (map of_string ts) in rw (is_arr, eq) (get_strings-map ts)

  flag_of-present : (b d : Bool) → flag_of json (some (of_bool b)) d ≡ b
  flag_of-present b d = rw (laws.is_boolean_of_bool b) (laws.get_bool_of_bool b)

  read_object_lem :
      (d : Bool) (j : Json) (allow deny : List Text)
      → names_of json (find j (codes "trackerAllow")) ≡ some allow
      → names_of json (find j (codes "trackerDeny")) ≡ some deny
      → read_object json d j
        ≡ some (record (repaired (read_values json d j)) {
          tracker_allow = allow;
          tracker_deny = deny;
          filters = filters_of json (find j (codes "filters"));
        })
  unfolding read_object
  read_object_lem d j allow deny e e' = rw (e, read_object, e') refl

  module _ (d : Bool) (c : Config) (h : IsInRange c) where
    abbrev ps : List (Text × Json)
    ps = config_members json c

    values-round_trip :
        read_values json d (made json ps)
        ≡ record c { tracker_allow = []; tracker_deny = []; filters = (default_config d).filters }
    unfolding read_values
    values-round_trip i = record {
      spider = read_flag json laws ps (codes "spider") c.spider true refl i;
      walk_interval =
          read_int json laws ps (codes "walkInterval") c.walk_interval (pos 100) refl
            h.walk_interval i;
      dht_port = read_int json laws ps (codes "dhtPort") c.dht_port (pos 6881) refl h.dht_port i;
      upnp = read_flag json laws ps (codes "upnp") c.upnp true refl i;
      hole_punch = read_flag json laws ps (codes "holePunch") c.hole_punch true refl i;
      p2p_port = read_int json laws ps (codes "p2pPort") c.p2p_port (pos 4444) refl h.p2p_port i;
      max_peers =
          read_int json laws ps (codes "p2pConnections") c.max_peers (pos 10) refl h.max_peers i;
      p2p_replication =
          read_flag json laws ps (codes "p2pReplication") c.p2p_replication true refl i;
      p2p_replication_server =
          read_flag json laws ps (codes "p2pReplicationServer") c.p2p_replication_server true refl
            i;
      download_path = read_text json laws ps (codes "downloadPath") c.download_path [] refl i;
      trackers_enabled =
          (ap (λ (o : Option Json). flag_of json o true) (look json laws ps (codes "trackers"))
              ∙ flag_of-present c.trackers_enabled true)
            i;
      site_scraper = read_flag json laws ps (codes "siteScraper") c.site_scraper true refl i;
      filters = (default_config d).filters;
      safe_search = read_flag json laws ps (codes "safeSearch") c.safe_search false refl i;
      strict_search = read_flag json laws ps (codes "strictSearch") c.strict_search true refl i;
      tracker_allow = [];
      tracker_deny = [];
      tracker_require_known =
          read_flag json laws ps (codes "trackerRequireKnown") c.tracker_require_known false refl i;
      index_max_torrents =
          read_int json laws ps (codes "indexMaxTorrents") c.index_max_torrents (pos 0) refl
            h.index_max_torrents i;
      file_index = read_flag json laws ps (codes "fileIndex") c.file_index d refl i;
    }

    object-round_trip : read_object json d (made json ps) ≡ some (repaired c)
    object-round_trip =
        read_object_lem d (made json ps) c.tracker_allow c.tracker_deny
          (ap (names_of json) (look json laws ps (codes "trackerAllow"))
            ∙ names-round_trip c.tracker_allow)
          (ap (names_of json) (look json laws ps (codes "trackerDeny"))
            ∙ names-round_trip c.tracker_deny)
        ∙ (λ i. some (record (repaired (values-round_trip i)) {
          tracker_allow = c.tracker_allow;
          tracker_deny = c.tracker_deny;
          filters =
              (ap (filters_of json) (look json laws ps (codes "filters"))
                  ∙ filters-round_trip c.filters h.size_min h.size_max h.max_files)
                i;
        }))
        ∙ (unfold repaired in refl)

module _ (json : JsonOps) (laws : JsonLaws json) (texts : TextOps json)
    (text_laws : ParseLaws json texts) where
  -- Where the file is written to its end and renamed, the save of a configuration whose numbers are
  -- in the range of their types says that it succeeded, and the configuration is loaded from the same
  -- path as it was but for the repairs: the cap on peers is taken between 10 and 1000, replication
  -- requests are answered if they are made, and a negative cap on torrents becomes 0.
  pub config-round_trip :
      (file_index_default : Bool) (path : Text) (c : Config) (disk : Disk texts.Content)
      → IsInRange c
      → ((save json texts in_place path c disk).0 ≡ true)
        × (load json texts file_index_default ((save json texts in_place path c disk).1 path)
            ≡ some (repaired c))
  unfolding save config_to_json load read_document
  config-round_trip d path c disk h =
      let (ok, read) = in_place_reads path (texts.dump (made json (config_members json c))) disk in
      (
        ok,
        rw
            (
              read,
              load,
              text_laws.parse_dump (made json (config_members json c)),
              read_document,
              is_obj json laws (config_members json c),
            )
            (object-round_trip json laws d c h),
      )
