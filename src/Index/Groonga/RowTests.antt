-- ===== src/Index/Groonga/RowTests.antt =====
-- The round trip of a row of native/index/groonga_index.cpp at a concrete torrent.
use rats_search_tui.Base.{
  pos, ◌≡◌, refl, List, [], ◌∷◌, map, some, none, Text, codes, eq_text, eq_text_refl, to_lower,
  lower_byte, arith, if◌then◌else◌,
}
use rats_search_tui.Domain.Json.Sample.{
  sample, sample-laws, Value, nothing, number, text, flag, fields, entry, items, item,
}
use rats_search_tui.Domain.Samples.{ubuntu}
use rats_search_tui.Domain.Torrent.{Torrent}
use rats_search_tui.Index.Groonga.Client.{GroongaOps}
use rats_search_tui.Index.Groonga.Rows.{row_to_torrent}
use rats_search_tui.Index.Groonga.Stored.{RowLaws, IsStorable, kept_info, output_names, stored}
use rats_search_tui.Index.Groonga.RoundTrip.{row-round_trip}
use rats_search_tui.Index.Groonga.Samples.{exact, without, store}
use rats_search_tui.Index.Groonga.SampleTexts.{encode, decode, decode-encode}

abbrev kept : Torrent Value
kept = record ubuntu {
  trackers_checked = pos 7000;
  file_list = record { path = codes "u.iso"; size = pos 5000 } ∷ [];
}

abbrev keeper : GroongaOps sample exact
keeper = record (store nothing nothing nothing) { dump = encode; parse = decode }

abbrev unset : Text → Value
unset key = if eq_text key (codes "info") then text [] else number (pos 0)

without-absent : (o : Value) (k : Text) → sample.find o k ≡ none → without o k ≡ o
without-absent (entry o j v) k h = ground (arith, without-absent o k)
without-absent nothing k h = refl
without-absent (text s) k h = refl
without-absent (number n) k h = refl
without-absent (flag b) k h = refl
without-absent fields k h = refl
without-absent items k h = refl
without-absent (item a v) k h = refl

keeper-laws : RowLaws sample exact keeper unset
keeper-laws = record {
  strings = λ s. refl;
  int64s = λ n h. refl;
  ints = λ n h. refl;
  doubles = λ x. refl;
  erase_set = λ o v k. rw (eq_text_refl k) refl;
  erase_absent = without-absent;
  parse_dump = decode-encode;
  dump_filled = λ v. refl;
  set_filled = λ o k v. refl;
  times = λ n h h1. refl;
  later_times = λ n h h1. ground (arith, h);
  no_info = refl;
  no_time = pos 0;
  no_time_read = refl;
  no_time_sign = refl;
}

kept-IsStorable : IsStorable sample exact keeper kept
unfolding to_lower lower_byte
kept-IsStorable = record {
  lower = refl;
  size = (omega arith, omega arith);
  files = (omega arith, omega arith);
  counted = refl;
  piece_length = (omega arith, omega arith);
  added = (omega arith, omega arith);
  type_id = (omega arith, omega arith);
  category_id = (omega arith, omega arith);
  seeders = (omega arith, omega arith);
  leechers = (omega arith, omega arith);
  completed = (omega arith, omega arith);
  good = (omega arith, omega arith);
  bad = (omega arith, omega arith);
  checked = (omega arith, omega arith);
  unlisted = λ h. refl;
  file_sizes = ((omega arith, omega arith), tt);
}

abbrev array_of : Value → List Value → Value
array_of a [] = a
array_of a (v ∷ vs) = array_of (item a v) vs

abbrev kept_row : Value
kept_row = array_of items (map (stored sample exact keeper unset kept) output_names)

row-round_trip_example :
    row_to_torrent sample exact keeper output_names kept_row
    ≡ some (record kept { info = kept_info sample exact keeper kept })
row-round_trip_example =
    row-round_trip sample exact keeper unset keeper-laws sample-laws kept kept_row kept-IsStorable
      refl refl

-- Information that is null comes back as null where there are no files, and as an empty object where
-- there are some; an object with members comes back as it was.
kinds_of_info :
    (kept_info sample exact keeper (record kept { info = nothing; file_list = [] }) ≡ nothing)
    × (kept_info sample exact keeper (record kept { info = nothing }) ≡ fields)
    × (kept_info sample exact keeper kept ≡ kept.info)
kinds_of_info = (refl, refl, refl)
