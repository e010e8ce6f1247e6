-- ===== src/Engine/Trackers/Shutdown.antt =====
-- The shutdown of native/engine/tracker_service.cpp and of the swarm scraper under it.
use rats_search_tui.Base.{
  ℕ, zero, suc, ◌≤◌, ◌≡◌, refl, true, false, List, [], ◌∷◌, Option, none, some, Text, length, drop,
  pick, Shortens, pick-Shortens, arith,
}
use rats_search_tui.Index.{SearchIndex}
use rats_search_tui.Engine.Swarm.{
  AnnounceResult, Scrape, Swarm, process_queue, request_scrape, heard, settle, end_task, deliver,
  finish_announce, run_report,
}
use rats_search_tui.Engine.Swarm
use rats_search_tui.Engine.Trackers.{
  TrackerService, check_counts, check_info, on_torrent_indexed, on_counts_scraped, on_info_scraped,
  stop, forward, in_swarm, Event, indexes, asks_counts, asks_info, swarm_works, info_comes, stops,
  handle, run,
}

-- A scraper that stops, with at most so many scrapes.
record IsEnding (n : ℕ) (s : Swarm) : Type 0 where
  is_stopping : s.stopping ≡ true
  fewer : length s.scrapes ≤ n

settle-IsEnding :
    (n k : ℕ) (hash : Text) (best : AnnounceResult) (rest : List Scrape) (s : Swarm)
    → length s.scrapes ≡ suc (length rest)
    → IsEnding n s
    → IsEnding n (settle k hash best rest s)
unfolding settle
settle-IsEnding n zero hash best rest s e v = v
settle-IsEnding n (suc zero) hash best rest s e v = ground arith
settle-IsEnding n (suc (suc k)) hash best rest s e v = ground arith

end_task-IsEnding :
    (n : ℕ) (one : Option AnnounceResult) (r : Option (Scrape × List Scrape)) (s : Swarm)
    → Shortens (length s.scrapes) r
    → IsEnding n s
    → IsEnding n (end_task one r s)
unfolding end_task
end_task-IsEnding n one none s e v = v
end_task-IsEnding n one (some (c, rest)) s e v =
    settle-IsEnding n c.remaining c.info_hash (heard one c.best) rest s e v

deliver-IsEnding :
    (n : ℕ) (r : Option ((Text × AnnounceResult) × List (Text × AnnounceResult))) (s : Swarm)
    → IsEnding n s
    → IsEnding n (deliver r s)
unfolding deliver process_queue
deliver-IsEnding n none s v = v
deliver-IsEnding n (some ((hash, best), rest)) s v = ground arith

request_scrape-IsEnding :
    (n now : ℕ) (hash : Text) (trackers : List Text) (s : Swarm)
    → IsEnding n s
    → IsEnding n (request_scrape now hash trackers s)
unfolding request_scrape
request_scrape-IsEnding n now hash trackers s v = ground arith

handle-IsEnding :
    (n : ℕ) (s : Swarm) (e : Swarm.Event) → IsEnding n s → IsEnding n (Swarm.handle s e)
unfolding Swarm.handle Swarm.stop finish_announce run_report
handle-IsEnding n s (Swarm.requests now hash trackers) v =
    request_scrape-IsEnding n now hash trackers s v
handle-IsEnding n s (Swarm.announces i one) v =
    end_task-IsEnding n one (pick i s.scrapes) s (pick-Shortens i s.scrapes) v
handle-IsEnding n s (Swarm.delivers i) v = deliver-IsEnding n (pick i s.reports) s v
handle-IsEnding n s Swarm.stops v = ground arith

module _ {J : Type 0} (index : SearchIndex J) where
  -- A service that stopped, with what the site scraper was asked until then.
  record IsSilent (n : ℕ) (asked : List (Text × Text)) (x : TrackerService index.State J)
      : Type 0 where
    no_counts : x.count_enabled ≡ false
    no_info : x.info_enabled ≡ false
    ending : IsEnding n x.swarm
    same_asked : x.site_scrapes ≡ asked

  module _ (n : ℕ) (asked : List (Text × Text)) where
    on_counts_scraped-IsSilent :
        (r : Text × AnnounceResult) (x : TrackerService index.State J)
        → IsSilent n asked x
        → IsSilent n asked (on_counts_scraped index r x)
    unfolding on_counts_scraped
    on_counts_scraped-IsSilent (hash, r) x v = ground arith

    forward-IsSilent :
        (rs : List (Text × AnnounceResult)) (x : TrackerService index.State J)
        → IsSilent n asked x
        → IsSilent n asked (forward index rs x)
    unfolding forward
    forward-IsSilent [] x v = v
    forward-IsSilent (r ∷ rs) x v =
        forward-IsSilent rs (on_counts_scraped index r x) (on_counts_scraped-IsSilent r x v)

    in_swarm-IsSilent :
        (e : Swarm.Event) (x : TrackerService index.State J)
        → IsSilent n asked x
        → IsSilent n asked (in_swarm index e x)
    unfolding in_swarm
    in_swarm-IsSilent e x v =
        let s = Swarm.handle x.swarm e in
        forward-IsSilent (drop (length x.swarm.scraped) s.scraped) (record x { swarm = s })
          (record {
            no_counts = v.no_counts;
            no_info = v.no_info;
            ending = handle-IsEnding n x.swarm e v.ending;
            same_asked = v.same_asked;
          })

    handle-IsSilent :
        (x : TrackerService index.State J) (e : Event J)
        → IsSilent n asked x
        → IsSilent n asked (handle index x e)
    unfolding handle on_torrent_indexed check_counts check_info on_info_scraped stop Swarm.handle
    handle-IsSilent x (indexes now hash name) v = ground arith
    handle-IsSilent x (asks_counts now hash) v = ground arith
    handle-IsSilent x (asks_info hash name) v = ground arith
    handle-IsSilent x (swarm_works e) v = in_swarm-IsSilent e x v
    handle-IsSilent x (info_comes hash info) v = ground arith
    handle-IsSilent x stops v = record {
      no_counts = refl;
      no_info = refl;
      ending = handle-IsEnding n x.swarm Swarm.stops v.ending;
      same_asked = v.same_asked;
    }

    run-IsSilent :
        (x : TrackerService index.State J) (es : List (Event J))
        → IsSilent n asked x
        → IsSilent n asked (run index x es)
    unfolding run
    run-IsSilent x [] v = v
    run-IsSilent x (e ∷ es) v = run-IsSilent (handle index x e) es (handle-IsSilent x e v)

  -- Once the service is stopped, and whatever is indexed, asked, answered and delivered after that,
  -- the site scraper is asked for nothing more and there are no more scrapes of counts than there were.
  pub stopped_forwards_nothing :
      (x : TrackerService index.State J) (es : List (Event J))
      → ((run index (stop index x) es).site_scrapes ≡ x.site_scrapes)
        × (length (run index (stop index x) es).swarm.scrapes ≤ length x.swarm.scrapes)
  unfolding stop Swarm.stop
  stopped_forwards_nothing x es =
      let v = run-IsSilent (length x.swarm.scrapes) x.site_scrapes (stop index x) es (record {
        no_counts = refl;
        no_info = refl;
        ending = record { is_stopping = refl; fewer = omega arith };
        same_asked = refl;
      }) in
      (v.same_asked, v.ending.fewer)
