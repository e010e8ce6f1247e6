-- ===== src/Engine/Sessions/Tests.antt =====
-- The theorems on native/engine/session_store.cpp at concrete inputs.
use rats_search_tui.Base.{
  ℤ, pos, ◌≡◌, refl, true, false, [], ◌∷◌, map, none, some, Text, codes, eq_text, arith,
}
use rats_search_tui.Domain.Json.Sample.{sample, sample-laws, Value, number}
use rats_search_tui.Domain.Samples.{whole}
use rats_search_tui.Engine.Downloads.{Download, default_download}
use rats_search_tui.Platform.Disk.{Disk, cut_short, not_renamed, in_place, temporary, write_file}
use rats_search_tui.Engine.Sessions.{JsonTexts, save, load}
use rats_search_tui.Engine.Sessions.RoundTrip.{TextLaws, IsStorable, persisted, session-round_trip}
use rats_search_tui.Engine.Sessions.Failures.{failed_save_keeps}

-- Files that hold the values themselves, and integers for doubles.
abbrev texts : JsonTexts sample whole
texts = record {
  Content = Value;
  of_double = number;
  value_double = λ o k d. sample.value_int64 o k d;
  dump = λ j. j;
  parse = λ j. some j;
}

texts-laws : TextLaws sample whole texts
texts-laws = record { value_double_present = λ o k x d h e. rw e; parse_dump = λ j. refl }

abbrev iso : Download ℤ
iso = record (unfold default_download in default_download whole) {
  hash = codes "0123456789abcdef0123456789abcdef01234567";
  total_size = pos 5000;
  downloaded_bytes = pos 5000;
  progress = pos 1;
  completed = true;
  files =
      record {
        path = codes "a.iso";
        size = pos 5000;
        index = pos 0;
        selected = true;
        progress = pos 1;
      }
      ∷ [];
}

abbrev fresh : Disk Value
fresh = λ q. none

iso-IsStorable : IsStorable iso
iso-IsStorable = record {
  total = (omega arith, omega arith);
  downloaded = (omega arith, omega arith);
  file_numbers = (((omega arith, omega arith), (omega arith, omega arith)), tt);
}

session-round_trip_example :
    ((save sample whole texts true in_place (codes "s.json") (iso ∷ []) fresh).0 ≡ true)
    × (load sample whole texts
          (codes "s.json")
          (save sample whole texts true in_place (codes "s.json") (iso ∷ []) fresh).1
        ≡ map (persisted sample sample-laws whole texts texts-laws) (iso ∷ []))
session-round_trip_example =
    session-round_trip sample sample-laws whole texts texts-laws (codes "s.json") (iso ∷ []) fresh
      (iso-IsStorable, tt)

-- A session file that cannot be removed is still there, though the save says that it succeeded.
left_over :
    save sample whole texts false in_place (codes "s.json") [] (λ q. some (number (pos 1)))
    ≡ (true, λ q. some (number (pos 1)))
unfolding save
left_over = refl

-- A session whose end was lost as the stream closed takes the place of the old one.
truncated :
    (save sample whole texts true (cut_short (number (pos 1))) (codes "s.json") (iso ∷ []) fresh).0
    ≡ true
unfolding save write_file
truncated = refl

failed_save_keeps_example :
    ((q : Text)
      → eq_text q (temporary (codes "s.json")) ≡ false
      → (save sample whole texts true not_renamed (codes "s.json") (iso ∷ []) fresh).1 q ≡ none)
    × (load sample whole texts
          (codes "s.json")
          (save sample whole texts true not_renamed (codes "s.json") (iso ∷ []) fresh).1
        ≡ load sample whole texts (codes "s.json") fresh)
failed_save_keeps_example =
    failed_save_keeps sample whole texts true not_renamed (codes "s.json") (iso ∷ []) fresh
      (unfold save in unfold write_file in refl)
