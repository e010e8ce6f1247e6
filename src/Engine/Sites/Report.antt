-- ===== src/Engine/Sites/Report.antt =====
-- native/engine/site_scraper.cpp: checkAllComplete, as far as it folds the results of the strategies
-- into one JSON object.
use rats_search_tui.Base.{
  ℤ, pos, ltb_ℤ, Bool, true, false, not, ◌&&◌, List, [], ◌∷◌, Text, codes, eq_text, any, null,
  is_some, if◌then◌else◌,
}
use rats_search_tui.Domain.Json.{JsonOps}
use rats_search_tui.Engine.Sites.Pages.{TrackerSiteInfo, rutracker, nyaa}

module _ (json : JsonOps) where
  open json use {
    Json, object, array, of_string, of_int, is_string, empty, set, push_back, find, elements,
    get_string, value_string,
  }

  -- trackers, with the name if it is not listed
  unfoldable pub listed : Text → Json → Json
  listed name trackers =
      if any (λ t. is_string t && eq_text (get_string t) name) (elements trackers)
      then trackers
      else push_back trackers (of_string name)

  -- The first text that is not empty stays under its key.
  unfoldable pub keep_first : Text → Text → Json → Json
  keep_first key value info =
      if null (value_string info key []) && not (null value)
      then set info key (of_string value)
      else info

  unfoldable pub set_thread : Text → ℤ → Json → Json
  set_thread key id info = if ltb_ℤ (pos 0) id then set info key (of_int id) else info

  unfoldable pub set_category : Text → Json → Json
  set_category category info =
      if not (null category) then set info (codes "contentCategory") (of_string category) else info

  unfoldable pub set_title : Text → Json → Json
  set_title title info =
      if not (null title) && not (is_some (find info (codes "trackerName")))
      then set info (codes "trackerName") (of_string title)
      else info

  unfoldable pub own_fields : TrackerSiteInfo → Json → Json
  own_fields r info =
      if eq_text r.tracker_name rutracker
      then set_title r.name (
          set_category r.content_category (set_thread (codes "rutrackerThreadId") r.thread_id info))
      else if eq_text r.tracker_name nyaa
      then set_thread (codes "nyaaThreadId") r.thread_id info
      else info

  unfoldable pub merge_result : TrackerSiteInfo → Json → Json
  merge_result r info =
      own_fields r
        (keep_first (codes "description") r.description (keep_first (codes "poster") r.poster info))

  unfoldable pub merge_results : List TrackerSiteInfo → Json → Json
  merge_results [] info = info
  merge_results (r ∷ rs) info = merge_results rs (merge_result r info)

  unfoldable pub list_trackers : List TrackerSiteInfo → Json → Json
  list_trackers [] trackers = trackers
  list_trackers (r ∷ rs) trackers = list_trackers rs (listed r.tracker_name trackers)

  -- Whether there is something to report, and the object.
  unfoldable pub folded : List TrackerSiteInfo → Bool × Json
  folded results =
      let trackers = list_trackers results array in
      let info = merge_results results object in
      if not (empty trackers) then (true, set info (codes "trackers") trackers) else (false, info)
