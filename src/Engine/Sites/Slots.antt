-- ===== src/Engine/Sites/Slots.antt =====
-- How many scrapes native/engine/site_scraper.cpp runs at a time.
use rats_search_tui.Base.{
  ℕ, suc, ◌-◌, ◌≤◌, ◌<◌, ◌≡◌, refl, ◌∙◌, ap, ◌⊎◌, Bool, true, false, List, [], ◌∷◌, Option, none,
  some, Text, length, pick, null, put_key, find_key, erase_key, is_some, length-put_key,
  length-erase_key, arith, if_intro, ltb_ℤ, pos,
}
use rats_search_tui.Domain.Json.{JsonOps}
use rats_search_tui.Engine.Sites.Html.{Pcre2}
use rats_search_tui.Engine.Sites.Pages.{TrackerSiteInfo}
use rats_search_tui.Engine.Sites.Report.{folded}
use rats_search_tui.Engine.Sites.Steps.{end_fetch-keeps}
use rats_search_tui.Engine.Sites.{
  Fetch, PendingRequest, PendingScrape, Sites, start_scrape, new_scrape, admit, scrape, drain,
  process_queue, stop, finish_scrape, complete_with, check_all_complete, count_down, report_to,
  on_strategy_complete, Event, scrapes, ends, stops, handle, run,
}

-- Each scrape that is under way has a slot, at most three slots are in use, nothing waits while one
-- is free, and nothing waits in a scraper that stops.
pub record HasSlots {J : Type 0} (s : Sites J) : Type 0 where
  pub covered : length s.pending_scrapes ≤ s.active_requests
  pub capped : s.active_requests ≤ 3
  pub used : (null s.pending_queue ≡ true) ⊎ (s.active_requests ≡ 3)
  pub quiet : s.stopping ≡ true → null s.pending_queue ≡ true

module _ {J : Type 0} where
  -- What a scrape that starts changes of a scraper, in the terms of the invariant.
  pub record IsStarted (s s' : Sites J) : Type 0 where
    pub at_most_one_more : length s'.pending_scrapes ≤ suc (length s.pending_scrapes)
    pub same_queue : s'.pending_queue ≡ s.pending_queue
    pub same_active : s'.active_requests ≡ s.active_requests
    pub same_stopping : s'.stopping ≡ s.stopping

  pub start_scrape-IsStarted :
      (hash name : Text) (s : Sites J) → IsStarted s (start_scrape hash name s)
  unfolding start_scrape
  start_scrape-IsStarted hash name s = record {
    at_most_one_more = ground (arith, length-put_key hash (new_scrape hash name) s.pending_scrapes);
    same_queue = refl;
    same_active = refl;
    same_stopping = refl;
  }

  admit-HasSlots :
      (now : ℕ) (hash name : Text) (s : Sites J)
      → s.stopping ≡ false
      → HasSlots s
      → HasSlots (admit now hash name s)
  unfolding admit
  admit-HasSlots now hash name s e v =
      let noted : Sites J = record s {
        recent_checks = put_key hash now s.recent_checks;
        active_requests = suc s.active_requests;
      } in
      ground (arith, start_scrape-IsStarted hash name noted, v, e)

  scrape-HasSlots :
      (now : ℕ) (hash name : Text) (s : Sites J) → HasSlots s → HasSlots (scrape now hash name s)
  unfolding scrape
  scrape-HasSlots now hash name s v =
      let admitted = λ (e : s.stopping ≡ false). admit-HasSlots now hash name s e v in
      ground (arith, admitted, v)

  drain-HasSlots :
      (queue : List PendingRequest) (s : Sites J)
      → s.stopping ≡ false
      → length s.pending_scrapes ≤ s.active_requests
      → s.active_requests ≤ 3
      → HasSlots (drain queue s)
  unfolding drain
  drain-HasSlots [] s e c le = ground arith
  drain-HasSlots (r ∷ queue) s e c le =
      let taken : Sites J = record s { active_requests = suc s.active_requests } in
      let begun = start_scrape-IsStarted r.info_hash r.name taken in
      let rest = λ (lt : s.active_requests < 3).
        drain-HasSlots queue (start_scrape r.info_hash r.name taken) (begun.same_stopping ∙ e)
          (omega (arith, begun.at_most_one_more, begun.same_active))
          (omega (arith, begun.same_active)) in
      ground (arith, rest, e)

  process_queue-HasSlots :
      (s : Sites J)
      → length s.pending_scrapes ≤ s.active_requests
      → s.active_requests ≤ 3
      → (s.stopping ≡ true → null s.pending_queue ≡ true)
      → HasSlots (process_queue s)
  unfolding process_queue
  process_queue-HasSlots s c le q = ground (arith, drain-HasSlots s.pending_queue s)

  finish_scrape-HasSlots :
      (hash : Text) (r : Bool × J) (s : Sites J)
      → is_some (find_key hash s.pending_scrapes) ≡ true
      → HasSlots s
      → HasSlots (finish_scrape hash r s)
  unfolding finish_scrape
  finish_scrape-HasSlots hash (b, info) s e v =
      let freed : Sites J = record s {
        pending_scrapes = erase_key hash s.pending_scrapes;
        active_requests = s.active_requests - 1;
      } in
      ground (arith, process_queue-HasSlots freed, length-erase_key hash s.pending_scrapes e, v)

module _ (json : JsonOps) where
  open json use {Json}

  complete_with-HasSlots :
      (hash : Text) (o : Option PendingScrape) (s : Sites Json)
      → find_key hash s.pending_scrapes ≡ o
      → HasSlots s
      → HasSlots (complete_with json hash o s)
  unfolding complete_with
  complete_with-HasSlots hash none s e v = v
  complete_with-HasSlots hash (some p) s e v =
      if_intro HasSlots (ltb_ℤ (pos 0) p.pending_count) v
        (finish_scrape-HasSlots hash (folded json p.results) s (ap is_some e) v)

  report_to-HasSlots :
      (hash : Text) (info : TrackerSiteInfo) (o : Option PendingScrape) (s : Sites Json)
      → find_key hash s.pending_scrapes ≡ o
      → HasSlots s
      → HasSlots (report_to json hash info o s)
  unfolding report_to check_all_complete
  report_to-HasSlots hash info none s e v = v
  report_to-HasSlots hash info (some p) s e v =
      let s' : Sites Json = record s {
        pending_scrapes = put_key hash (count_down info p) s.pending_scrapes;
      } in
      complete_with-HasSlots hash (find_key hash s'.pending_scrapes) s' refl
        (ground (arith, length-put_key hash (count_down info p) s.pending_scrapes, ap is_some e, v))

  complete-HasSlots :
      (hash : Text) (info : TrackerSiteInfo) (s : Sites Json)
      → HasSlots s
      → HasSlots (on_strategy_complete json hash info s)
  unfolding on_strategy_complete
  complete-HasSlots hash info s v =
      report_to-HasSlots hash info (find_key hash s.pending_scrapes) s refl v

module _ (json : JsonOps) (pcre2 : Pcre2) where
  open json use {Json}

  refetched-HasSlots :
      (fs : List Fetch) (s : Sites Json) → HasSlots s → HasSlots (record s { fetches = fs })
  refetched-HasSlots fs s v = record {
    covered = v.covered;
    capped = v.capped;
    used = v.used;
    quiet = v.quiet;
  }

  handle-HasSlots : (s : Sites Json) (e : Event) → HasSlots s → HasSlots (handle json pcre2 s e)
  unfolding handle stop
  handle-HasSlots s (scrapes now hash name) v = scrape-HasSlots now hash name s v
  handle-HasSlots s (ends i res) v =
      end_fetch-keeps json pcre2 HasSlots (complete-HasSlots json) refetched-HasSlots res
        (pick i s.fetches) s v
  handle-HasSlots s stops v = ground arith

  -- Whatever is scraped, fetched and stopped in whatever order, a scraper that satisfies `HasSlots`,
  -- as a new one does, goes on to: the scrapes under way are at most the slots in use, these are at
  -- most three, a request waits only while three are in use, and none waits in a scraper that stops.
  pub run-WithinSlots :
      (s : Sites Json) (es : List Event) → HasSlots s → HasSlots (run json pcre2 s es)
  unfolding run
  run-WithinSlots s [] v = v
  run-WithinSlots s (e ∷ es) v = run-WithinSlots (handle json pcre2 s e) es (handle-HasSlots s e v)
