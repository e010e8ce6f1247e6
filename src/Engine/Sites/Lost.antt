-- ===== src/Engine/Sites/Lost.antt =====
-- Slots of native/engine/site_scraper.cpp that no scrape will ever free.
use rats_search_tui.Base.{
  ℕ, suc, ◌+◌, ◌-◌, ◌≤◌, ◌<◌, ◌≡◌, refl, ap, Bool, true, false, List, [], ◌∷◌, Option, none, some,
  Text, length, pick, put_key, find_key, erase_key, is_some, length-put_key, length-erase_key,
  if_intro, ltb_ℤ, pos, ltb, arith,
}
use rats_search_tui.Domain.Json.{JsonOps}
use rats_search_tui.Engine.Sites.Html.{Pcre2}
use rats_search_tui.Engine.Sites.Pages.{TrackerSiteInfo}
use rats_search_tui.Engine.Sites.Report.{folded}
use rats_search_tui.Engine.Sites.Steps.{end_fetch-keeps}
use rats_search_tui.Engine.Sites.Slots.{start_scrape-IsStarted}
use rats_search_tui.Engine.Sites.{
  PendingRequest, PendingScrape, Sites, new_scrape, start_scrape, admit, scrape, drain,
  process_queue, stop, finish_scrape, complete_with, check_all_complete, count_down, report_to,
  on_strategy_complete, is_cooling, Event, scrapes, ends, stops, handle, run,
}

module _ {J : Type 0} where
  -- At least n of the slots in use belong to no scrape that is under way.
  abbrev pub IsShort : ℕ → Sites J → Type 0
  IsShort n s = n + length s.pending_scrapes ≤ s.active_requests

  module _ (n : ℕ) where
    admit-IsShort :
        (now : ℕ) (hash name : Text) (s : Sites J) → IsShort n s → IsShort n (admit now hash name s)
    unfolding admit
    admit-IsShort now hash name s v =
        let noted : Sites J = record s {
          recent_checks = put_key hash now s.recent_checks;
          active_requests = suc s.active_requests;
        } in
        ground (arith, start_scrape-IsStarted hash name noted)

    scrape-IsShort :
        (now : ℕ) (hash name : Text) (s : Sites J)
        → IsShort n s
        → IsShort n (scrape now hash name s)
    unfolding scrape
    scrape-IsShort now hash name s v = ground (arith, admit-IsShort now hash name s)

    drain-IsShort :
        (queue : List PendingRequest) (s : Sites J) → IsShort n s → IsShort n (drain queue s)
    unfolding drain
    drain-IsShort [] s v = v
    drain-IsShort (r ∷ queue) s v =
        let taken : Sites J = record s { active_requests = suc s.active_requests } in
        let begun = start_scrape-IsStarted r.info_hash r.name taken in
        if_intro (IsShort n) (ltb s.active_requests 3)
          (drain-IsShort queue (start_scrape r.info_hash r.name taken)
            (omega (arith, begun.at_most_one_more, begun.same_active)))
          v

    process_queue-IsShort : (s : Sites J) → IsShort n s → IsShort n (process_queue s)
    unfolding process_queue
    process_queue-IsShort s v =
        if_intro (IsShort n) s.stopping v (drain-IsShort s.pending_queue s v)

    finish_scrape-IsShort :
        (hash : Text) (r : Bool × J) (s : Sites J)
        → is_some (find_key hash s.pending_scrapes) ≡ true
        → IsShort n s
        → IsShort n (finish_scrape hash r s)
    unfolding finish_scrape
    finish_scrape-IsShort hash (b, info) s e v =
        let freed : Sites J = record s {
          pending_scrapes = erase_key hash s.pending_scrapes;
          active_requests = s.active_requests - 1;
        } in
        ground (arith, process_queue-IsShort freed, length-erase_key hash s.pending_scrapes e, v)

module _ (json : JsonOps) (n : ℕ) where
  open json use {Json}

  complete_with-IsShort :
      (hash : Text) (o : Option PendingScrape) (s : Sites Json)
      → find_key hash s.pending_scrapes ≡ o
      → IsShort n s
      → IsShort n (complete_with json hash o s)
  unfolding complete_with
  complete_with-IsShort hash none s e v = v
  complete_with-IsShort hash (some p) s e v =
      if_intro (IsShort n) (ltb_ℤ (pos 0) p.pending_count) v
        (finish_scrape-IsShort n hash (folded json p.results) s (ap is_some e) v)

  report_to-IsShort :
      (hash : Text) (info : TrackerSiteInfo) (o : Option PendingScrape) (s : Sites Json)
      → find_key hash s.pending_scrapes ≡ o
      → IsShort n s
      → IsShort n (report_to json hash info o s)
  unfolding report_to check_all_complete
  report_to-IsShort hash info none s e v = v
  report_to-IsShort hash info (some p) s e v =
      let s' : Sites Json = record s {
        pending_scrapes = put_key hash (count_down info p) s.pending_scrapes;
      } in
      complete_with-IsShort hash (find_key hash s'.pending_scrapes) s' refl
        (ground (arith, length-put_key hash (count_down info p) s.pending_scrapes, ap is_some e, v))

  complete-IsShort :
      (hash : Text) (info : TrackerSiteInfo) (s : Sites Json)
      → IsShort n s
      → IsShort n (on_strategy_complete json hash info s)
  unfolding on_strategy_complete
  complete-IsShort hash info s v =
      report_to-IsShort hash info (find_key hash s.pending_scrapes) s refl v

module _ (json : JsonOps) (pcre2 : Pcre2) where
  open json use {Json}

  handle-IsShort :
      (n : ℕ) (s : Sites Json) (e : Event) → IsShort n s → IsShort n (handle json pcre2 s e)
  unfolding handle stop
  handle-IsShort n s (scrapes now hash name) v = scrape-IsShort n now hash name s v
  handle-IsShort n s (ends i res) v =
      end_fetch-keeps json pcre2 (IsShort n) (complete-IsShort json n) (λ fs s' v'. v') res
        (pick i s.fetches) s v
  handle-IsShort n s stops v = v

  run-IsShort :
      (n : ℕ) (s : Sites Json) (es : List Event) → IsShort n s → IsShort n (run json pcre2 s es)
  unfolding run
  run-IsShort n s [] v = v
  run-IsShort n s (e ∷ es) v = run-IsShort n (handle json pcre2 s e) es (handle-IsShort n s e v)

  overlap-IsShort :
      (n now : ℕ) (hash name : Text) (s : Sites Json)
      → s.stopping ≡ false
      → length hash ≡ 40
      → is_cooling now (find_key hash s.recent_checks) ≡ false
      → is_some (find_key hash s.pending_scrapes) ≡ true
      → s.active_requests < 3
      → IsShort n s
      → IsShort (suc n) (scrape now hash name s)
  unfolding scrape admit start_scrape
  overlap-IsShort n now hash name s e l c p a v =
      ground (arith, length-put_key hash (new_scrape hash name) s.pending_scrapes)

  -- A hash of 40 characters that is scraped again while its scrape is still under way, its cooldown
  -- being over, a slot being free and the scraper not stopping, costs a slot for good: if n slots in
  -- use belonged to no scrape under way, then n + 1 do after whatever happens next.
  pub overlap_loses_slot :
      (n now : ℕ) (hash name : Text) (s : Sites Json) (es : List Event)
      → s.stopping ≡ false
      → length hash ≡ 40
      → is_cooling now (find_key hash s.recent_checks) ≡ false
      → is_some (find_key hash s.pending_scrapes) ≡ true
      → s.active_requests < 3
      → IsShort n s
      → IsShort (suc n) (run json pcre2 (scrape now hash name s) es)
  overlap_loses_slot n now hash name s es e l c p a v =
      run-IsShort (suc n) (scrape now hash name s) es
        (overlap-IsShort n now hash name s e l c p a v)
