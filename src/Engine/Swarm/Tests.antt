-- ===== src/Engine/Swarm/Tests.antt =====
-- The theorems on native/engine/swarm_scraper.cpp at concrete inputs.
use rats_search_tui.Base.{
  ℕ, pos, ◌≡◌, refl, inl, true, List, [], ◌∷◌, ◌++◌, none, some, codes, arith,
}
use rats_search_tui.Engine.Swarm.{
  AnnounceResult, no_result, Swarm, new, admit, request_scrape, requests, announces, delivers,
  stops, run,
}
use rats_search_tui.Engine.Swarm.Slots.{HasSlots, run-HasSlots}
use rats_search_tui.Engine.Swarm.Best.{IsBest, announced, scrape_reports_best}
use rats_search_tui.Engine.Swarm.Cooldown.{SameWork, request_within_cooldown}

abbrev hash : List ℕ
hash = codes "0123456789abcdef0123456789abcdef01234567"

abbrev crowd : AnnounceResult
crowd = record { seeders = pos 9; leechers = pos 1; completed = pos 0; success = true }

abbrev few : AnnounceResult
few = record { seeders = pos 2; leechers = pos 1; completed = pos 0; success = true }

abbrev scraping : Swarm
scraping = record new {
  active_requests = 1;
  scrapes = record { info_hash = hash; best = no_result; remaining = 3 } ∷ [];
}

run-HasSlots_example : HasSlots (
    run new
      (requests 0 hash (codes "udp://a" ∷ []) ∷ announces 0 (some crowd) ∷ delivers 0 ∷ stops ∷ []))
run-HasSlots_example =
    run-HasSlots new
      (requests 0 hash (codes "udp://a" ∷ []) ∷ announces 0 (some crowd) ∷ delivers 0 ∷ stops ∷ [])
      (unfold new in
        record { counted = refl; capped = omega arith; used = inl refl; quiet = λ e. refl })

scrape_reports_best_example :
    (r : AnnounceResult) × IsBest no_result (some few ∷ none ∷ some crowd ∷ []) r
    × ((run scraping (announced (some few ∷ none ∷ some crowd ∷ []))).scrapes ≡ [])
    × ((run scraping (announced (some few ∷ none ∷ some crowd ∷ []))).reports
        ≡ scraping.reports ++ (hash, r) ∷ [])
scrape_reports_best_example =
    scrape_reports_best (some few) (none ∷ some crowd ∷ [])
      (record { info_hash = hash; best = no_result; remaining = 3 }) [] scraping refl refl

request_within_cooldown_example :
    let s' = run (admit 5 hash [] new) (requests 6 hash [] ∷ stops ∷ []) in
    SameWork s' (request_scrape 7 hash [] s')
request_within_cooldown_example =
    request_within_cooldown hash 5 7 [] [] new (requests 6 hash [] ∷ stops ∷ [])
      (omega arith, (tt, tt)) (omega arith)
