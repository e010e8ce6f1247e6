-- ===== src/Platform/Config.antt =====
-- native/platform/config.h and config.cpp: the configuration file. The JSON library is a parameter, and
-- so is what the build sets as the default of fileIndex. What is loaded is none where the code throws.
pub mod Loaded
pub mod Throws
pub mod RoundTrip
mod Tests
use rats_search_tui.Base.{
  ℤ, pos, ltb_ℤ, leb_ℤ, Bool, true, false, not, ◌&&◌, List, [], ◌∷◌, map, Option, none, some, Text,
  codes, if◌then◌else◌,
}
use rats_search_tui.Domain.Json.{JsonOps}
use rats_search_tui.Domain.Json.Texts.{TextOps}
use rats_search_tui.Domain.Json.Arrays.{push_all}
use rats_search_tui.Domain.Codec.{set_all}
use rats_search_tui.Platform.Disk.{Disk, Outcome, write_file}

pub record FilterConfig : Type 0 where
  pub size_min : ℤ
  pub size_max : ℤ
  pub max_files : ℤ
  pub naming_reg_exp : Text
  pub naming_reg_exp_negative : Bool
  pub adult_filter : Bool
  pub content_type : Text

pub record Config : Type 0 where
  pub spider : Bool
  pub walk_interval : ℤ
  pub dht_port : ℤ
  pub upnp : Bool
  pub hole_punch : Bool
  pub p2p_port : ℤ
  pub max_peers : ℤ
  pub p2p_replication : Bool
  pub p2p_replication_server : Bool
  pub download_path : Text
  pub trackers_enabled : Bool
  pub site_scraper : Bool
  pub filters : FilterConfig
  pub safe_search : Bool
  pub strict_search : Bool
  pub tracker_allow : List Text
  pub tracker_deny : List Text
  pub tracker_require_known : Bool
  pub index_max_torrents : ℤ
  pub file_index : Bool

abbrev pub default_filters : FilterConfig
default_filters = record {
  size_min = pos 0;
  size_max = pos 0;
  max_files = pos 0;
  naming_reg_exp = [];
  naming_reg_exp_negative = false;
  adult_filter = false;
  content_type = [];
}

-- `file_index_default` is RATSN_FILE_INDEX_DEFAULT
abbrev pub default_config : Bool → Config
default_config file_index_default = record {
  spider = true;
  walk_interval = pos 100;
  dht_port = pos 6881;
  upnp = true;
  hole_punch = true;
  p2p_port = pos 4444;
  max_peers = pos 10;
  p2p_replication = true;
  p2p_replication_server = true;
  download_path = [];
  trackers_enabled = true;
  site_scraper = true;
  filters = default_filters;
  safe_search = false;
  strict_search = true;
  tracker_allow = [];
  tracker_deny = [];
  tracker_require_known = false;
  index_max_torrents = pos 0;
  file_index = file_index_default;
}

abbrev pub min_max_peers : ℤ
min_max_peers = pos 10

abbrev pub max_max_peers : ℤ
max_max_peers = pos 1000

-- std::clamp
unfoldable pub clamp : ℤ → ℤ → ℤ → ℤ
clamp lo hi n = if ltb_ℤ n lo then lo else if ltb_ℤ hi n then hi else n

-- What load repairs of the values that it read.
unfoldable pub repaired : Config → Config
repaired c = record c {
  max_peers = clamp min_max_peers max_max_peers c.max_peers;
  p2p_replication_server =
      if c.p2p_replication && not c.p2p_replication_server then true else c.p2p_replication_server;
  index_max_torrents = if ltb_ℤ c.index_max_torrents (pos 0) then pos 0 else c.index_max_torrents;
}

module _ (json : JsonOps) where
  open json use {
    Json, object, array, of_string, of_int, of_bool, is_object, is_array, is_string, is_boolean,
    find, elements, get_string, get_bool, value_string, value_int64, value_int, value_bool,
  }

  unfoldable pub filters_to_json : FilterConfig → Json
  filters_to_json f = set_all json object (
      (codes "sizeMin", of_int f.size_min)
      ∷ (codes "sizeMax", of_int f.size_max)
      ∷ (codes "maxFiles", of_int f.max_files)
      ∷ (codes "namingRegExp", of_string f.naming_reg_exp)
      ∷ (codes "namingRegExpNegative", of_bool f.naming_reg_exp_negative)
      ∷ (codes "adultFilter", of_bool f.adult_filter)
      ∷ (codes "contentType", of_string f.content_type)
      ∷ [])

  unfoldable pub filters_from_json : Json → FilterConfig
  filters_from_json j = if not (is_object j) then default_filters else record {
    size_min = value_int64 j (codes "sizeMin") (pos 0);
    size_max = value_int64 j (codes "sizeMax") (pos 0);
    max_files = value_int j (codes "maxFiles") (pos 0);
    naming_reg_exp = value_string j (codes "namingRegExp") [];
    naming_reg_exp_negative = value_bool j (codes "namingRegExpNegative") false;
    adult_filter = value_bool j (codes "adultFilter") false;
    content_type = value_string j (codes "contentType") [];
  }

  abbrev pub flag_of : Option Json → Bool → Bool
  flag_of none d = d
  flag_of (some v) d = if is_boolean v then get_bool v else d

  -- The values that stand under a key of their own, with the defaults for those that do not.
  unfoldable pub read_values : Bool → Json → Config
  read_values file_index_default j = record (default_config file_index_default) {
    spider = value_bool j (codes "spider") true;
    walk_interval = value_int j (codes "walkInterval") (pos 100);
    dht_port = value_int j (codes "dhtPort") (pos 6881);
    upnp = value_bool j (codes "upnp") true;
    hole_punch = value_bool j (codes "holePunch") true;
    p2p_port = value_int j (codes "p2pPort") (pos 4444);
    max_peers = value_int j (codes "p2pConnections") (pos 10);
    p2p_replication = value_bool j (codes "p2pReplication") true;
    p2p_replication_server = value_bool j (codes "p2pReplicationServer") true;
    download_path = value_string j (codes "downloadPath") [];
    safe_search = value_bool j (codes "safeSearch") false;
    strict_search = value_bool j (codes "strictSearch") true;
    tracker_require_known = value_bool j (codes "trackerRequireKnown") false;
    trackers_enabled = flag_of (find j (codes "trackers")) true;
    site_scraper = value_bool j (codes "siteScraper") true;
    index_max_torrents = value_int j (codes "indexMaxTorrents") (pos 0);
    file_index = value_bool j (codes "fileIndex") file_index_default;
  }

  -- get<std::string>() of each element, which throws on a value of another type.
  unfoldable pub get_strings : List Json → Option (List Text)
  get_strings [] = some []
  get_strings (v ∷ vs) =
      if is_string v
      then elim (get_strings vs) [ none ↦ none | some ts ↦ some (get_string v ∷ ts) ]
      else none

  -- The names under a key, if they are an array.
  unfoldable pub names_of : Option Json → Option (List Text)
  names_of none = some []
  names_of (some v) = if is_array v then get_strings (elements v) else some []

  abbrev pub filters_of : Option Json → FilterConfig
  filters_of none = default_filters
  filters_of (some v) = filters_from_json v

  -- What load does with an object.
  unfoldable pub read_object : Bool → Json → Option Config
  read_object file_index_default j = elim (names_of (find j (codes "trackerAllow"))) [
    | none ↦ none
    | some allow ↦ elim (names_of (find j (codes "trackerDeny"))) [
      | none ↦ none
      | some deny ↦ some (record (repaired (read_values file_index_default j)) {
        tracker_allow = allow;
        tracker_deny = deny;
        filters = filters_of (find j (codes "filters"));
      })
    ]
  ]

  -- What load does with what was parsed: none is a text that was discarded.
  unfoldable pub read_document : Bool → Option Json → Option Config
  read_document file_index_default none = some (default_config file_index_default)
  read_document file_index_default (some j) =
      if is_object j
      then read_object file_index_default j
      else some (default_config file_index_default)

  abbrev pub config_members : Config → List (Text × Json)
  config_members c =
      (codes "spider", of_bool c.spider)
      ∷ (codes "walkInterval", of_int c.walk_interval)
      ∷ (codes "dhtPort", of_int c.dht_port)
      ∷ (codes "upnp", of_bool c.upnp)
      ∷ (codes "holePunch", of_bool c.hole_punch)
      ∷ (codes "p2pPort", of_int c.p2p_port)
      ∷ (codes "p2pConnections", of_int c.max_peers)
      ∷ (codes "p2pReplication", of_bool c.p2p_replication)
      ∷ (codes "p2pReplicationServer", of_bool c.p2p_replication_server)
      ∷ (codes "downloadPath", of_string c.download_path)
      ∷ (codes "safeSearch", of_bool c.safe_search)
      ∷ (codes "strictSearch", of_bool c.strict_search)
      ∷ (codes "trackerRequireKnown", of_bool c.tracker_require_known)
      ∷ (codes "indexMaxTorrents", of_int c.index_max_torrents)
      ∷ (codes "fileIndex", of_bool c.file_index)
      ∷ (codes "trackers", of_bool c.trackers_enabled)
      ∷ (codes "siteScraper", of_bool c.site_scraper)
      ∷ (codes "trackerAllow", push_all json array (map of_string c.tracker_allow))
      ∷ (codes "trackerDeny", push_all json array (map of_string c.tracker_deny))
      ∷ (codes "filters", filters_to_json c.filters)
      ∷ []

  unfoldable pub config_to_json : Config → Json
  config_to_json c = set_all json object (config_members c)

module _ (json : JsonOps) (texts : TextOps json) where
  open texts use {Content, dump, parse}

  -- The value of a file's text; there is none if the file cannot be opened.
  abbrev pub parsed : Option Content → Option json.Json
  parsed none = none
  parsed (some text) = parse text

  -- load, on what the file holds
  unfoldable pub load : Bool → Option Content → Option Config
  load file_index_default file = read_document json file_index_default (parsed file)

  unfoldable pub save : Outcome Content → Text → Config → Disk Content → Bool × Disk Content
  save outcome path c disk = write_file outcome path (dump (config_to_json json c)) disk
