-- ===== src/Engine/Sites/Tests.antt =====
-- The theorems on native/engine/site_scraper.cpp at concrete inputs.
use rats_search_tui.Base.{
  ℕ, ◌+◌, ◌≤◌, ◌≡◌, refl, inl, true, false, Bool, List, [], ◌∷◌, map, Option, none, some, Text,
  codes, length, ltb, if◌then◌else◌, find_key, put_key, erase_key, ◌-ℤ◌, arith,
}
use rats_search_tui.Domain.Json.Sample.{sample, sample-laws, Value}
use rats_search_tui.Engine.Sites.Encoding.{utf8_encode, table, decode_windows1251}
use rats_search_tui.Engine.Sites.Utf8.{unicode, Decodes, decode_windows1251-Decodes}
use rats_search_tui.Engine.Sites.Html.{
  Pcre2, Pcre2Laws, Match, replace_literal, replace_each, entities, replace_round, entity_round,
  lines_of,
}
use rats_search_tui.Engine.Sites.Rounds.{Gives, loops_end}
use rats_search_tui.Engine.Sites.Pages.{TrackerSiteInfo, nothing_on, rutracker, nyaa}
use rats_search_tui.Engine.Sites.Report.{folded, list_trackers, merge_results}
use rats_search_tui.Engine.Sites.Merged.{first_filled, report_first_wins}
use rats_search_tui.Engine.Sites.{
  Sites, HttpResult, url_path_starts_with, new_scrape, scrape, scrapes, ends, stops, run, Event,
  handle, admit, start_scrape, strategies, end_fetch, fetched, nyaa_found, on_strategy_complete,
  report_to, check_all_complete, complete_with, finish_scrape, process_queue, drain, count_down,
}
use rats_search_tui.Engine.Sites.Slots.{HasSlots, run-WithinSlots}
use rats_search_tui.Engine.Sites.Lost.{IsShort, overlap_loses_slot}

-- A library whose one pattern matches any single byte.
abbrev any_match : Text → ℕ → Option Match
any_match s at =
    if ltb at (length s)
    then some (record { start = at; end = at + 1; groups = some (at, at + 1) ∷ [] })
    else none

abbrev any_byte : Pcre2
any_byte = record {
  Code = Bool;
  compile = λ p flags. some true;
  exec = λ code s at. any_match s at;
}

starts : (s : Text) (at : ℕ) (m : Match) → any_match s at ≡ some m → at ≤ m.start
starts s at m e = ground arith

orders : (s : Text) (at : ℕ) (m : Match) → any_match s at ≡ some m → m.start ≤ m.end
orders s at m e = ground arith

fits : (s : Text) (at : ℕ) (m : Match) → any_match s at ≡ some m → m.end ≤ length s
fits s at m e = ground arith

any_byte-laws : Pcre2Laws any_byte
any_byte-laws = record {
  from_position = λ code s at m e. starts s at m e;
  ordered = λ code s at m e. orders s at m e;
  in_subject = λ code s at m e. fits s at m e;
}

abbrev hash : Text
hash = codes "0123456789abcdef0123456789abcdef01234567"

abbrev idle : Sites Value
idle = record {
  stopping = false;
  recent_checks = [];
  pending_scrapes = [];
  pending_queue = [];
  active_requests = 0;
  fetches = [];
  scraped = [];
}

abbrev failed : HttpResult
failed = record { ok = false; body = []; final_url = [] }

decode_windows1251-Decodes_example :
    Decodes (map unicode (65 ∷ 207 ∷ 152 ∷ [])) (decode_windows1251 (65 ∷ 207 ∷ 152 ∷ []))
decode_windows1251-Decodes_example = decode_windows1251-Decodes (65 ∷ 207 ∷ 152 ∷ []) (omega arith)

letters : decode_windows1251 (65 ∷ 207 ∷ 152 ∷ []) ≡ 65 ∷ 0xD0 ∷ 0x9F ∷ 0xC2 ∷ 0x98 ∷ []
unfolding decode_windows1251 table utf8_encode
letters = refl

loops_end_example :
    ((r : Text) × Gives (replace_round any_byte true (codes "ab") (codes "-")) 2 0 r)
    × ((r : Text) × Gives (entity_round any_byte true (codes "ab")) 2 0 r)
loops_end_example = loops_end any_byte any_byte-laws true (codes "ab") (codes "-")

run-WithinSlots_example : HasSlots (
    run sample any_byte idle
      (scrapes 0 hash (codes "a") ∷ ends 1 failed ∷ ends 0 failed ∷ stops ∷ []))
run-WithinSlots_example =
    run-WithinSlots sample any_byte idle
      (scrapes 0 hash (codes "a") ∷ ends 1 failed ∷ ends 0 failed ∷ stops ∷ [])
      (record { covered = omega arith; capped = omega arith; used = inl refl; quiet = λ e. refl })

-- A scrape is under way that began an hour ago.
abbrev busy : Sites Value
busy = record idle {
  recent_checks = (hash, 0) ∷ [];
  pending_scrapes = (hash, new_scrape hash []) ∷ [];
  active_requests = 1;
}

overlap_loses_slot_example :
    IsShort 1
      (run sample any_byte (scrape 3600000000000 hash [] busy) (ends 0 failed ∷ ends 0 failed ∷ []))
overlap_loses_slot_example =
    overlap_loses_slot sample any_byte 0 3600000000000 hash [] busy
      (ends 0 failed ∷ ends 0 failed ∷ []) refl refl (unfold find_key in refl)
      (unfold find_key in refl) (omega arith) (omega arith)

-- Both fetches of one scrape fail: its slot is free again, and nothing is reported.
abbrev both_fail : List Event
both_fail = scrapes 0 hash (codes "a") ∷ ends 1 failed ∷ ends 0 failed ∷ []

scrape_ends : (run sample any_byte idle both_fail).active_requests ≡ 0
unfolding run handle scrape admit start_scrape strategies end_fetch fetched nyaa_found
    on_strategy_complete report_to check_all_complete complete_with finish_scrape process_queue
    drain folded list_trackers put_key find_key erase_key nothing_on ◌-ℤ◌ merge_results count_down
scrape_ends = refl

abbrev poster_only : TrackerSiteInfo
poster_only = record (nothing_on rutracker) { poster = codes "p"; success = true }

abbrev described : TrackerSiteInfo
described = record (nothing_on nyaa) { poster = codes "q"; description = codes "d"; success = true }

report_first_wins_example :
    (sample.value_string (folded sample (poster_only ∷ described ∷ [])).1 (codes "poster") []
      ≡ first_filled (map (λ r. r.poster) (poster_only ∷ described ∷ [])))
    × (sample.value_string (folded sample (poster_only ∷ described ∷ [])).1 (codes "description") []
        ≡ first_filled (map (λ r. r.description) (poster_only ∷ described ∷ [])))
report_first_wins_example = report_first_wins sample sample-laws (poster_only ∷ described ∷ [])

view_page : url_path_starts_with (codes "https://nyaa.si/view/12") (codes "/view/") ≡ true
unfolding url_path_starts_with
view_page = refl

search_page : url_path_starts_with (codes "https://nyaa.si/?q=12") (codes "/view/") ≡ false
unfolding url_path_starts_with
search_page = refl

-- An escaped entity is decoded twice.
decoded_twice : replace_each entities (codes "&amp;lt;b") ≡ codes "<b"
unfolding replace_each replace_literal
decoded_twice = refl

trimmed_lines : lines_of (codes "a\nb\n") ≡ codes "a" ∷ codes "b" ∷ [] ∷ []
unfolding lines_of
trimmed_lines = refl
