-- ===== src/Engine/Trackers.antt =====
-- native/engine/tracker_service.h and tracker_service.cpp: the scrapes of what is indexed, and where
-- their results go. The swarm scraper is that of Engine/Swarm; of the site scraper there are the
-- calls that are made of it, and its results are events. The index is the interface of Index.
pub mod Pipeline
pub mod Shutdown
mod Tests
use rats_search_tui.Base.{
  ℕ, ℤ, Bool, true, false, List, [], ◌∷◌, ◌++◌, Option, Text, drop, length, if◌then◌else◌,
}
use rats_search_tui.Index.{SearchIndex}
use rats_search_tui.Engine.Swarm.{AnnounceResult, Swarm}
use rats_search_tui.Engine.Swarm

-- `stats` and `infos` are what the callbacks of the terminal interface were called with.
pub record TrackerService (I J : Type 0) : Type 0 where
  pub swarm : Swarm
  pub site_scrapes : List (Text × Text)
  pub site_stopped : Bool
  pub index : I
  pub count_enabled : Bool
  pub info_enabled : Bool
  pub stats : List (Text × AnnounceResult)
  pub infos : List (Text × J)

module _ {J : Type 0} (index : SearchIndex J) where
  unfoldable pub check_counts :
      ℕ → Text → TrackerService index.State J → TrackerService index.State J
  check_counts now hash x =
      if x.count_enabled then record x { swarm = Swarm.request_scrape now hash [] x.swarm } else x

  unfoldable pub check_info :
      Text → Text → TrackerService index.State J → TrackerService index.State J
  check_info hash name x =
      if x.info_enabled then record x { site_scrapes = x.site_scrapes ++ (hash, name) ∷ [] } else x

  unfoldable pub on_torrent_indexed :
      ℕ → Text → Text → TrackerService index.State J → TrackerService index.State J
  on_torrent_indexed now hash name x = check_info hash name (check_counts now hash x)

  unfoldable pub on_counts_scraped :
      Text × AnnounceResult → TrackerService index.State J → TrackerService index.State J
  on_counts_scraped (hash, r) x =
      let (ok, i) = index.update_stats hash r.seeders r.leechers r.completed x.index in
      let x' : TrackerService index.State J = record x { index = i } in
      if ok then record x' { stats = x'.stats ++ (hash, r) ∷ [] } else x'

  unfoldable pub on_info_scraped :
      Text → J → TrackerService index.State J → TrackerService index.State J
  on_info_scraped hash info x =
      let (ok, i) = index.merge_info hash info x.index in
      let x' : TrackerService index.State J = record x { index = i } in
      if ok then record x' { infos = x'.infos ++ (hash, info) ∷ [] } else x'

  unfoldable pub stop : TrackerService index.State J → TrackerService index.State J
  stop x = record x {
    count_enabled = false;
    info_enabled = false;
    swarm = Swarm.stop x.swarm;
    site_stopped = true;
  }

  -- The results that the swarm scraper calls back with go to the index.
  unfoldable pub forward :
      List (Text × AnnounceResult) → TrackerService index.State J → TrackerService index.State J
  forward [] x = x
  forward (r ∷ rs) x = forward rs (on_counts_scraped r x)

  -- What the swarm scraper does in the background, with its callback.
  unfoldable pub in_swarm :
      Swarm.Event → TrackerService index.State J → TrackerService index.State J
  in_swarm e x =
      let s = Swarm.handle x.swarm e in
      forward (drop (length x.swarm.scraped) s.scraped) (record x { swarm = s })

-- What the service is called with.
pub data Event (J : Type 0) : Type 0 where
  indexes : ℕ → Text → Text → Event J
  asks_counts : ℕ → Text → Event J
  asks_info : Text → Text → Event J
  swarm_works : Swarm.Event → Event J
  info_comes : Text → J → Event J
  stops : Event J

module _ {J : Type 0} (index : SearchIndex J) where
  unfoldable pub handle : TrackerService index.State J → Event J → TrackerService index.State J
  handle x (indexes now hash name) = on_torrent_indexed index now hash name x
  handle x (asks_counts now hash) = check_counts index now hash x
  handle x (asks_info hash name) = check_info index hash name x
  handle x (swarm_works e) = in_swarm index e x
  handle x (info_comes hash info) = on_info_scraped index hash info x
  handle x stops = stop index x

  unfoldable pub run : TrackerService index.State J → List (Event J) → TrackerService index.State J
  run x [] = x
  run x (e ∷ es) = run (handle x e) es
