-- ===== src/Engine/Trackers/Tests.antt =====
-- The theorems on native/engine/tracker_service.cpp at concrete inputs.
use rats_search_tui.Base.{
  suc, pos, ◌≡◌, refl, true, false, List, [], ◌∷◌, Option, none, some, length, if◌then◌else◌,
}
use rats_search_tui.Domain.Torrent.{Torrent}
use rats_search_tui.Domain.Json.Sample.{Value}
use rats_search_tui.Domain.Samples.{ubuntu}
use rats_search_tui.Engine.Samples.{shelf}
use rats_search_tui.Engine.Swarm
use rats_search_tui.Engine.Swarm.{AnnounceResult, no_result, default_trackers}
use rats_search_tui.Engine.Swarm.Best.{IsBest, announced}
use rats_search_tui.Engine.Swarm.Whole.{IsIdle}
use rats_search_tui.Engine.Trackers.{
  TrackerService, check_counts, in_swarm, Event, indexes, asks_info, swarm_works,
}
use rats_search_tui.Engine.Trackers.Pipeline.{all_in_swarm, check_counts_lem}

abbrev service : TrackerService (List (Torrent Value)) Value
service = record {
  swarm = Swarm.new;
  site_scrapes = [];
  site_stopped = false;
  index = ubuntu ∷ [];
  count_enabled = true;
  info_enabled = true;
  stats = [];
  infos = [];
}

abbrev late : List (Event Value)
late =
    indexes 3 ubuntu.hash ubuntu.name
    ∷ swarm_works (Swarm.delivers 0)
    ∷ asks_info ubuntu.hash ubuntu.name
    ∷ []

abbrev crowd : AnnounceResult
crowd = record { seeders = pos 9; leechers = pos 1; completed = pos 0; success = true }

abbrev answers : List (Option AnnounceResult)
answers = none ∷ some crowd ∷ none ∷ none ∷ none ∷ none ∷ none ∷ []

never_checked : Swarm.find_check ubuntu.hash service.swarm.recent_checks ≡ none
unfolding Swarm.find_check Swarm.new
never_checked = refl

new-IsIdle : IsIdle Swarm.new
unfolding Swarm.new
new-IsIdle = record {
  working = refl;
  no_scrapes = refl;
  no_reports = refl;
  no_pending = refl;
  no_active = refl;
}

seven_more : length default_trackers ≡ suc (length answers)
unfolding default_trackers
seven_more = refl

check_counts_lem_example :
    let x' = in_swarm shelf (Swarm.delivers 0) (
      all_in_swarm shelf (announced (none ∷ answers)) (check_counts shelf 3 ubuntu.hash service)) in
    (r : AnnounceResult) × IsBest no_result (none ∷ answers) r
    × (x'.index ≡ (
        if r.success
        then (shelf.update_stats ubuntu.hash r.seeders r.leechers r.completed service.index).1
        else service.index))
    × IsIdle x'.swarm
check_counts_lem_example =
    check_counts_lem shelf 3 ubuntu.hash service none answers refl refl never_checked new-IsIdle
      seven_more
