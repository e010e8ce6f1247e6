-- ===== src/Domain/Tests.antt =====
-- The theorems on native/domain at concrete inputs, and runs of its functions.
use rats_search_tui.Base.{pos, ◌≡◌, ◌↔◌, refl, true, codes, to_lower, to_string, arith}
use rats_search_tui.Domain.Json.Sample.{sample}
use rats_search_tui.Domain.Samples.{ubuntu, words, strict}
use rats_search_tui.Domain.Codec.{torrent_to_json, torrent_from_json}
use rats_search_tui.Domain.Codec.RoundTrip.{IsWritable, torrent-round_trip}
use rats_search_tui.Domain.Json.Sample.{sample-laws}
use rats_search_tui.Domain.Filter.{
  compile_naming_regex, rejection_reason, accepts, check_file_count,
}
use rats_search_tui.Domain.Filter.Accepts.{IsAcceptable, accepts_iff}

accepts_iff_example :
    (accepts sample words (compile_naming_regex words strict) ubuntu ≡ true)
    ↔ IsAcceptable sample words strict ubuntu
accepts_iff_example = accepts_iff sample words strict ubuntu

rejects_large :
    rejection_reason sample words
      (compile_naming_regex words (record strict { max_files = pos 1 }))
      ubuntu
    ≡ codes "Too many files: 2 > 1"
unfolding rejection_reason compile_naming_regex check_file_count to_string
rejects_large = refl

ubuntu-IsWritable : IsWritable sample sample-laws ubuntu
unfolding to_lower
ubuntu-IsWritable = record {
  lower = refl;
  hashed = refl;
  size = omega arith;
  files = omega arith;
  counted = refl;
  piece_length = omega arith;
  added = omega arith;
  dated = refl;
  seeders = omega arith;
  leechers = omega arith;
  completed = omega arith;
  trackers_checked = omega arith;
  good = omega arith;
  bad = omega arith;
  file_sizes = tt;
}

torrent-round_trip_example :
    torrent_from_json sample
      (pos 7)
      (torrent_to_json sample ubuntu (record { include_files = true; include_info = true }))
    ≡ ubuntu
torrent-round_trip_example = torrent-round_trip sample sample-laws (pos 7) ubuntu ubuntu-IsWritable
