-- ===== src/Engine/Sites/Steps.antt =====
-- What is kept by the report of a strategy and by a change of the fetches is kept by the end of a
-- fetch, in native/engine/site_scraper.cpp.
use rats_search_tui.Base.{
  ltb_ℤ, pos, not, ◌&&◌, ◌++◌, List, Option, none, some, Text, codes, to_string, if_intro,
}
use rats_search_tui.Domain.Json.{JsonOps}
use rats_search_tui.Engine.Sites.Html.{Pcre2}
use rats_search_tui.Engine.Sites.Pages.{
  TrackerSiteInfo, nothing_on, nyaa, parse_nyaa_search_html, parse_nyaa_view_html,
}
use rats_search_tui.Engine.Sites.{
  Page, rutracker_page, nyaa_search_page, nyaa_view_page, Fetch, HttpResult, Sites,
  url_path_starts_with, on_strategy_complete, scrape_nyaa_view_page, nyaa_found, fetched, end_fetch,
}

module _ (json : JsonOps) (pcre2 : Pcre2) (P : Sites json.Json → Type 0)
    (reports : (hash : Text) (info : TrackerSiteInfo) (s : Sites json.Json)
      → P s
      → P (on_strategy_complete json hash info s))
    (refetches : (fs : List Fetch) (s : Sites json.Json)
      → P s
      → P (record s { fetches = fs })) where
  view_page-keeps :
      (hash url : Text) (s : Sites json.Json) → P s → P (scrape_nyaa_view_page json hash url s)
  unfolding scrape_nyaa_view_page
  view_page-keeps hash url s v =
      if_intro P s.stopping (reports hash (nothing_on nyaa) s v) (refetches _ s v)

  nyaa_found-keeps :
      (hash : Text) (res : HttpResult) (s : Sites json.Json)
      → P s
      → P (nyaa_found json pcre2 hash res s)
  unfolding nyaa_found
  nyaa_found-keeps hash res s v =
      let found = parse_nyaa_search_html pcre2 res.body in
      let done = λ (info : TrackerSiteInfo). reports hash info s v in
      if_intro P (not res.ok) (done (nothing_on nyaa)) (
        if_intro P (url_path_starts_with res.final_url (codes "/view/"))
          (done (parse_nyaa_view_html pcre2 res.body))
          (if_intro P (found.success && ltb_ℤ (pos 0) found.thread_id)
            (view_page-keeps hash (codes "https://nyaa.si/view/" ++ to_string found.thread_id) s v)
            (if_intro P found.success (done found) (done (nothing_on nyaa)))))

  fetched-keeps :
      (page : Page) (hash : Text) (res : HttpResult) (s : Sites json.Json)
      → P s
      → P (fetched json pcre2 page hash res s)
  unfolding fetched
  fetched-keeps rutracker_page hash res s v = reports hash _ s v
  fetched-keeps nyaa_search_page hash res s v = nyaa_found-keeps hash res s v
  fetched-keeps nyaa_view_page hash res s v = reports hash _ s v

  pub end_fetch-keeps :
      (res : HttpResult) (o : Option (Fetch × List Fetch)) (s : Sites json.Json)
      → P s
      → P (end_fetch json pcre2 res o s)
  unfolding end_fetch
  end_fetch-keeps res none s v = v
  end_fetch-keeps res (some (f, rest)) s v =
      fetched-keeps f.page f.hash res (record s { fetches = rest }) (refetches rest s v)
