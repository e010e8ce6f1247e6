-- ===== src/Engine/Sites.antt =====
-- native/engine/site_scraper.h and site_scraper.cpp: the scrapes of tracker web sites. Time is counted
-- in nanoseconds. A fetch that was posted to the pool is an entry of `fetches`; how it ends, and the
-- page that libcurl brought, is an event, in which the task that it posts to the engine loop runs.
-- The maps are lists of pairs. PCRE2 and the JSON library are parameters.
pub mod Encoding
pub mod Utf8
pub mod Html
pub mod Pages
pub mod Report
pub mod Steps
pub mod Slots
pub mod Lost
pub mod Rounds
pub mod Merged
mod Tests
use rats_search_tui.Base.{
  ℕ, suc, ◌-◌, ℤ, pos, ltb_ℤ, ◌-ℤ◌, Bool, true, false, not, ◌&&◌, ◌||◌, List, [], ◌∷◌, ◌++◌, Option,
  none, some, Text, codes, is_prefix, before_after, length, ltb, leb, pick, ◌==◌, find_key, put_key,
  erase_key, to_string, drop, if◌then◌else◌,
}
use rats_search_tui.Domain.Json.{JsonOps}
use rats_search_tui.Engine.Swarm.{elapsed_secs}
use Html.{Pcre2}
use Pages.{
  TrackerSiteInfo, nothing_on, rutracker, nyaa, parse_rutracker_html, parse_nyaa_search_html,
  parse_nyaa_view_html,
}
use Report.{folded}

pub data Page : Type 0 where
  rutracker_page : Page
  nyaa_search_page : Page
  nyaa_view_page : Page

pub record Fetch : Type 0 where
  pub page : Page
  pub hash : Text
  pub url : Text

pub record HttpResult : Type 0 where
  pub ok : Bool
  pub body : Text
  pub final_url : Text

pub record PendingRequest : Type 0 where
  pub info_hash : Text
  pub name : Text

pub record PendingScrape : Type 0 where
  pub name : Text
  pub pending_count : ℤ
  pub results : List TrackerSiteInfo

pub record Sites (J : Type 0) : Type 0 where
  pub stopping : Bool
  pub recent_checks : List (Text × ℕ)
  pub pending_scrapes : List (Text × PendingScrape)
  pub pending_queue : List PendingRequest
  pub active_requests : ℕ
  pub fetches : List Fetch
  pub scraped : List (Text × J)

abbrev pub cooldown_secs : ℕ
cooldown_secs = 3600

abbrev pub max_concurrent : ℕ
max_concurrent = 3

abbrev pub info_hash_hex_length : ℕ
info_hash_hex_length = 40

-- The text behind the first place where `sub` stands, if it does.
behind : Text → Text → Option Text
behind sub [] = none
behind sub (c ∷ s) =
    let later = behind sub s in
    if is_prefix sub (c ∷ s) then some (drop (length sub) (c ∷ s)) else later

unfoldable pub url_path_starts_with : Text → Text → Bool
unfolding behind
url_path_starts_with url prefix =
    let from_host = elim (behind (codes "://") url) as (λ _. Text) [ none ↦ url | some s ↦ s ] in
    elim (before_after b'/' from_host).1 [
      | none ↦ false
      | some path ↦ is_prefix prefix (b'/' ∷ path)
    ]

-- kStrategies, as the fetch that each begins with.
unfoldable pub strategies : Text → List Fetch
strategies hash =
    record {
      page = rutracker_page;
      hash = hash;
      url = codes "https://rutracker.org/forum/viewtopic.php?h=" ++ hash;
    }
    ∷ record { page = nyaa_search_page; hash = hash; url = codes "https://nyaa.si/?q=" ++ hash }
    ∷ []

abbrev pub is_cooling : ℕ → Option ℕ → Bool
is_cooling now none = false
is_cooling now (some t) = ltb (elapsed_secs now t) cooldown_secs

abbrev pub new_scrape : Text → Text → PendingScrape
new_scrape hash name = record {
  name = name;
  pending_count = pos (length (strategies hash));
  results = [];
}

module _ {J : Type 0} where
  unfoldable pub start_scrape : Text → Text → Sites J → Sites J
  start_scrape hash name s = record s {
    pending_scrapes = put_key hash (new_scrape hash name) s.pending_scrapes;
    fetches = s.fetches ++ strategies hash;
  }

  -- What scrape does for a hash that is not cooling down.
  unfoldable pub admit : ℕ → Text → Text → Sites J → Sites J
  admit now hash name s =
      let noted : Sites J = record s { recent_checks = put_key hash now s.recent_checks } in
      if leb max_concurrent noted.active_requests
      then record noted {
        pending_queue = noted.pending_queue ++ record { info_hash = hash; name = name } ∷ [];
      }
      else start_scrape hash name (record noted { active_requests = suc noted.active_requests })

  unfoldable pub scrape : ℕ → Text → Text → Sites J → Sites J
  scrape now hash name s =
      if s.stopping || not (length hash == info_hash_hex_length)
      then s
      else if is_cooling now (find_key hash s.recent_checks)
      then s
      else admit now hash name s

  -- The loop of processQueue.
  unfoldable pub drain : List PendingRequest → Sites J → Sites J
  drain [] s = record s { pending_queue = [] }
  drain (r ∷ queue) s =
      let rest =
        drain queue (
          start_scrape r.info_hash r.name (record s { active_requests = suc s.active_requests })) in
      if ltb s.active_requests max_concurrent then rest else record s { pending_queue = r ∷ queue }

  unfoldable pub process_queue : Sites J → Sites J
  process_queue s = if s.stopping then s else drain s.pending_queue s

  -- stop; a fetch that it aborts or drops ends in no event.
  unfoldable pub stop : Sites J → Sites J
  stop s = record s { stopping = true; pending_queue = [] }

  -- A hash is done: its slot is free again, and its report is made.
  unfoldable pub finish_scrape : Text → Bool × J → Sites J → Sites J
  finish_scrape hash (some_data, info) s =
      let freed : Sites J = record s {
        pending_scrapes = erase_key hash s.pending_scrapes;
        active_requests =
            if ltb 0 s.active_requests then s.active_requests - 1 else s.active_requests;
      } in
      let s' = process_queue freed in
      if some_data then record s' { scraped = s'.scraped ++ (hash, info) ∷ [] } else s'

unfoldable pub count_down : TrackerSiteInfo → PendingScrape → PendingScrape
count_down info p = record p {
  results = if info.success then p.results ++ info ∷ [] else p.results;
  pending_count = p.pending_count -ℤ pos 1;
}

-- What happens to a scraper.
pub data Event : Type 0 where
  scrapes : ℕ → Text → Text → Event
  ends : ℕ → HttpResult → Event
  stops : Event

module _ (json : JsonOps) where
  open json use {Json}

  unfoldable pub complete_with : Text → Option PendingScrape → Sites Json → Sites Json
  complete_with hash none s = s
  complete_with hash (some p) s =
      if ltb_ℤ (pos 0) p.pending_count then s else finish_scrape hash (folded json p.results) s

  unfoldable pub check_all_complete : Text → Sites Json → Sites Json
  check_all_complete hash s = complete_with hash (find_key hash s.pending_scrapes) s

  unfoldable pub report_to : Text → TrackerSiteInfo → Option PendingScrape → Sites Json → Sites Json
  report_to hash info none s = s
  report_to hash info (some p) s =
      check_all_complete hash
        (record s { pending_scrapes = put_key hash (count_down info p) s.pending_scrapes })

  unfoldable pub on_strategy_complete : Text → TrackerSiteInfo → Sites Json → Sites Json
  on_strategy_complete hash info s = report_to hash info (find_key hash s.pending_scrapes) s

  unfoldable pub scrape_nyaa_view_page : Text → Text → Sites Json → Sites Json
  scrape_nyaa_view_page hash view_url s =
      if s.stopping then on_strategy_complete hash (nothing_on nyaa) s else record s {
        fetches = s.fetches ++ record { page = nyaa_view_page; hash = hash; url = view_url } ∷ [];
      }

module _ (json : JsonOps) (pcre2 : Pcre2) where
  open json use {Json}

  -- The answer of the search on Nyaa.
  unfoldable pub nyaa_found : Text → HttpResult → Sites Json → Sites Json
  nyaa_found hash res s =
      let info = parse_nyaa_search_html pcre2 res.body in
      if not res.ok
      then on_strategy_complete json hash (nothing_on nyaa) s
      else if url_path_starts_with res.final_url (codes "/view/")
      then on_strategy_complete json hash (parse_nyaa_view_html pcre2 res.body) s
      else if info.success && ltb_ℤ (pos 0) info.thread_id
      then scrape_nyaa_view_page json hash
          (codes "https://nyaa.si/view/" ++ to_string info.thread_id) s
      else if info.success
      then on_strategy_complete json hash info s
      else on_strategy_complete json hash (nothing_on nyaa) s

  -- The task that the end of a fetch posts to the engine loop.
  unfoldable pub fetched : Page → Text → HttpResult → Sites Json → Sites Json
  fetched rutracker_page hash res s =
      on_strategy_complete json hash
        (if res.ok then parse_rutracker_html pcre2 res.body else nothing_on rutracker) s
  fetched nyaa_search_page hash res s = nyaa_found hash res s
  fetched nyaa_view_page hash res s =
      on_strategy_complete json hash
        (if res.ok then parse_nyaa_view_html pcre2 res.body else nothing_on nyaa) s

  unfoldable pub end_fetch : HttpResult → Option (Fetch × List Fetch) → Sites Json → Sites Json
  end_fetch res none s = s
  end_fetch res (some (f, rest)) s = fetched f.page f.hash res (record s { fetches = rest })

  unfoldable pub handle : Sites Json → Event → Sites Json
  handle s (scrapes now hash name) = scrape now hash name s
  handle s (ends i res) = end_fetch res (pick i s.fetches) s
  handle s stops = stop s

  unfoldable pub run : Sites Json → List Event → Sites Json
  run s [] = s
  run s (e ∷ es) = run (handle s e) es
