-- ===== src/Engine/Trackers/Pipeline.antt =====
-- The way of a scrape through native/engine/tracker_service.cpp: from the torrent that is indexed,
-- over the trackers' answers, to the index.
use mathlib.Core.Path.{subst}
use rats_search_tui.Base.{
  ℕ, suc, ◌≡◌, refl, ◌∙◌, sym, ap, true, List, [], ◌∷◌, ◌++◌, Option, none, Text, length, drop,
  drop-length, drop_all, if◌then◌else◌, arith,
}
use rats_search_tui.Index.{SearchIndex}
use rats_search_tui.Engine.Swarm.{
  AnnounceResult, no_result, default_trackers, Scrape, PendingRequest, Swarm, start_scrape,
  effective_trackers, admit, pruned, prune_stale_checks, find_check, elapsed_secs, request_scrape,
  drain, process_queue, heard, settle, end_task, finish_announce, deliver, run_report,
}
use rats_search_tui.Engine.Swarm
use rats_search_tui.Engine.Swarm.Best.{IsBest, announced, scrape_reports_best}
use rats_search_tui.Engine.Swarm.Whole.{
  IsIdle, first_scrape, told, request_begins, finish_announce-IsKept, run-IsKept, run_report-IsIdle,
}
use rats_search_tui.Engine.Trackers.{
  TrackerService, check_counts, on_counts_scraped, forward, in_swarm,
}

announce_scraped :
    (one : Option AnnounceResult) (s : Swarm)
    → (Swarm.handle s (Swarm.announces 0 one)).scraped ≡ s.scraped
unfolding Swarm.handle
announce_scraped one s = ground (arith, finish_announce-IsKept 0 one s)

module _ {J : Type 0} (index : SearchIndex J) where
  abbrev pub all_in_swarm :
      List Swarm.Event → TrackerService index.State J → TrackerService index.State J
  all_in_swarm [] x = x
  all_in_swarm (e ∷ es) x = all_in_swarm es (in_swarm index e x)

  -- An event that calls nothing back changes nothing but the scraper.
  in_swarm_quiet :
      (e : Swarm.Event) (x : TrackerService index.State J)
      → (Swarm.handle x.swarm e).scraped ≡ x.swarm.scraped
      → in_swarm index e x ≡ record x { swarm = Swarm.handle x.swarm e }
  unfolding in_swarm forward
  in_swarm_quiet e x same = rw (same, drop_all x.swarm.scraped) refl

  announced_quiet :
      (ones : List (Option AnnounceResult)) (x : TrackerService index.State J)
      → all_in_swarm (announced ones) x ≡ record x { swarm = Swarm.run x.swarm (announced ones) }
  unfolding Swarm.run
  announced_quiet [] x = refl
  announced_quiet (one ∷ ones) x =
      ap (all_in_swarm (announced ones))
        (in_swarm_quiet (Swarm.announces 0 one) x (announce_scraped one x.swarm))
      ∙ announced_quiet ones (record x { swarm = Swarm.handle x.swarm (Swarm.announces 0 one) })

  forward-told :
      (hash : Text) (r : AnnounceResult) (x : TrackerService index.State J)
      → ((forward index (told hash r) x).index ≡ (
          if r.success
          then (index.update_stats hash r.seeders r.leechers r.completed x.index).1
          else x.index))
        × ((forward index (told hash r) x).swarm ≡ x.swarm)
  unfolding forward told on_counts_scraped
  forward-told hash r x = ground arith

  delivered_told :
      (hash : Text) (r : AnnounceResult) (x : TrackerService index.State J)
      → (run_report 0 x.swarm).scraped ≡ x.swarm.scraped ++ told hash r
      → in_swarm index (Swarm.delivers 0) x
        ≡ forward index (told hash r) (record x { swarm = run_report 0 x.swarm })
  unfolding in_swarm Swarm.handle
  delivered_told hash r x e =
      ap
        (λ (d : List (Text × AnnounceResult)).
          forward index d (record x { swarm = run_report 0 x.swarm }))
        (ap (drop (length x.swarm.scraped)) e ∙ drop-length x.swarm.scraped (told hash r))

  delivered :
      (hash : Text) (r : AnnounceResult) (x : TrackerService index.State J)
      → IsIdle (run_report 0 x.swarm)
        × ((run_report 0 x.swarm).scraped ≡ x.swarm.scraped ++ told hash r)
      → ((in_swarm index (Swarm.delivers 0) x).index ≡ (
          if r.success
          then (index.update_stats hash r.seeders r.leechers r.completed x.index).1
          else x.index))
        × IsIdle (in_swarm index (Swarm.delivers 0) x).swarm
  delivered hash r x (idle, scraped) =
      let x' : TrackerService index.State J = record x { swarm = run_report 0 x.swarm } in
      let (to_index, to_swarm) = forward-told hash r x' in
      rw (delivered_told hash r x scraped) (to_index, subst IsIdle (sym to_swarm) idle)

  checked :
      (now : ℕ) (hash : Text) (x : TrackerService index.State J) (one : Option AnnounceResult)
      (ones : List (Option AnnounceResult))
      → x.count_enabled ≡ true
      → in_swarm index
          (Swarm.delivers 0)
          (all_in_swarm (announced (one ∷ ones)) (check_counts index now hash x))
        ≡ in_swarm index (Swarm.delivers 0) (record x {
          swarm = Swarm.run (request_scrape now hash [] x.swarm) (announced (one ∷ ones));
        })
  unfolding check_counts
  checked now hash x one ones enabled =
      let y : TrackerService index.State J = record x {
        swarm = request_scrape now hash [] x.swarm;
      } in
      ap
        (λ (z : TrackerService index.State J).
          in_swarm index (Swarm.delivers 0) (all_in_swarm (announced (one ∷ ones)) z))
        (rw enabled refl)
      ∙ ap (in_swarm index (Swarm.delivers 0)) (announced_quiet (one ∷ ones) y)

  -- A hash of 40 bytes that was never checked gets its counts: if the service counts and its scraper
  -- is idle, then, once the default trackers have each answered or failed, one after the other, and
  -- the result was delivered, the index is what `update_stats` makes of it with the best answer, if
  -- any succeeded, and the same as before otherwise; and the scraper is idle again.
  pub check_counts_lem :
      (now : ℕ) (hash : Text) (x : TrackerService index.State J) (one : Option AnnounceResult)
      (ones : List (Option AnnounceResult))
      → x.count_enabled ≡ true
      → length hash ≡ 40
      → find_check hash x.swarm.recent_checks ≡ none
      → IsIdle x.swarm
      → length default_trackers ≡ suc (length ones)
      → let x' =
          in_swarm index
            (Swarm.delivers 0)
            (all_in_swarm (announced (one ∷ ones)) (check_counts index now hash x)) in
        (r : AnnounceResult) × IsBest no_result (one ∷ ones) r
        × (x'.index ≡ (
            if r.success
            then (index.update_stats hash r.seeders r.leechers r.completed x.index).1
            else x.index))
        × IsIdle x'.swarm
  check_counts_lem now hash x one ones enabled n e idle all =
      let s = request_scrape now hash [] x.swarm in
      let b = request_begins now hash x.swarm n e idle in
      let (r, best, scrapes, reports) =
        scrape_reports_best one ones (first_scrape hash default_trackers) [] s b.one_scrape all in
      let k = run-IsKept (one ∷ ones) s in
      let s' = Swarm.run s (announced (one ∷ ones)) in
      let d =
        delivered hash r (record x { swarm = s' })
          (run_report-IsIdle hash r s'
            (reports ∙ ap (λ (l : List (Text × AnnounceResult)). l ++ (hash, r) ∷ []) b.reports)
            (k.working ∙ b.working) scrapes (k.pending ∙ b.pending) (k.active ∙ b.active)) in
      let whole = checked now hash x one ones enabled in
      (
        r,
        best,
        ap (λ (y : TrackerService index.State J). y.index) whole ∙ d.0,
        subst IsIdle (sym (ap (λ (y : TrackerService index.State J). y.swarm) whole)) d.1,
      )
