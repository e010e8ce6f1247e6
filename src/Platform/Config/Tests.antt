-- ===== src/Platform/Config/Tests.antt =====
-- The theorems on native/platform/config.cpp at concrete inputs.
use rats_search_tui.Base.{
  pos, negsuc, ◌≡◌, ◌↔◌, refl, Option, true, false, [], ◌∷◌, none, some, codes, arith,
}
use rats_search_tui.Domain.Json.Sample.{
  sample, sample-laws, Value, number, text, fields, entry, items, item,
}
use rats_search_tui.Domain.Json.Texts.{TextOps}
use rats_search_tui.Platform.Disk.{Disk, in_place}
use rats_search_tui.Platform.Config.{Config, default_config, repaired, clamp, save, load, parsed}
use rats_search_tui.Platform.Config.Throws.{Throws, bad_deny, here, there, load-Throws}
use rats_search_tui.Platform.Config.RoundTrip.{IsInRange, config-round_trip}

abbrev greedy : Config
greedy = record (default_config false) {
  max_peers = pos 5000;
  p2p_replication_server = false;
  index_max_torrents = negsuc 4;
  tracker_deny = codes "bad" ∷ [];
}

greedy-IsInRange : IsInRange greedy
greedy-IsInRange = record {
  walk_interval = (omega arith, omega arith);
  dht_port = (omega arith, omega arith);
  p2p_port = (omega arith, omega arith);
  max_peers = (omega arith, omega arith);
  index_max_torrents = (omega arith, omega arith);
  size_min = (omega arith, omega arith);
  size_max = (omega arith, omega arith);
  max_files = (omega arith, omega arith);
}

abbrev fresh : Disk (Option Value)
fresh = λ q. none

-- Files that hold the values themselves, the bare text of which none is made is not JSON.
abbrev texts : TextOps sample
texts = record { Content = Option Value; dump = λ v. some v; parse = λ o. o }

config-round_trip_example :
    ((save sample texts in_place (codes "c.json") greedy fresh).0 ≡ true)
    × (load sample texts true
          ((save sample texts in_place (codes "c.json") greedy fresh).1 (codes "c.json"))
        ≡ some (repaired greedy))
config-round_trip_example =
    config-round_trip sample sample-laws texts (record { parse_dump = λ j. refl }) true
      (codes "c.json") greedy fresh greedy-IsInRange

repairs : (repaired greedy).max_peers ≡ pos 1000
unfolding repaired clamp
repairs = refl

abbrev mixed : Value
mixed = entry fields (codes "trackerDeny") (item (item items (text (codes "a"))) (number (pos 1)))

load-Throws_example :
    (load sample texts true (some (some mixed)) ≡ none)
    ↔ Throws sample (parsed sample texts (some (some mixed)))
load-Throws_example = load-Throws sample texts true (some (some mixed))

number_in_deny : Throws sample (some mixed)
number_in_deny = bad_deny refl (_, refl, refl, there (here refl))

throws_mixed : load sample texts true (some (some mixed)) ≡ none
throws_mixed = (load-Throws sample texts true (some (some mixed))).1 number_in_deny
