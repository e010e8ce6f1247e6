-- ===== src/Engine/Sites/Pages.antt =====
-- native/engine/site_scraper.cpp: what is read of the pages of RuTracker and Nyaa.
use rats_search_tui.Base.{
  ℕ, ℤ, pos, wrap32, Bool, true, false, not, ◌||◌, List, [], ◌∷◌, Option, none, some, Text, codes,
  eq_text, null, take, if◌then◌else◌,
}
use rats_search_tui.Domain.Filter.{trim}
use rats_search_tui.Engine.Sites.Encoding.{decode_windows1251}
use rats_search_tui.Engine.Sites.Html.{
  Pcre2, Flag, dot_all, contains_case_insensitive, to_long, truncate_description, first_match,
  replace_all_regex, strip_html,
}

pub record TrackerSiteInfo : Type 0 where
  pub tracker_name : Text
  pub name : Text
  pub poster : Text
  pub description : Text
  pub content_category : Text
  pub thread_id : ℤ
  pub success : Bool

-- What a strategy that found nothing reports.
unfoldable pub nothing_on : Text → TrackerSiteInfo
nothing_on site = record {
  tracker_name = site;
  name = [];
  poster = [];
  description = [];
  content_category = [];
  thread_id = pos 0;
  success = false;
}

abbrev pub rutracker : Text
rutracker = codes "rutracker"

abbrev pub nyaa : Text
nyaa = codes "nyaa"

abbrev pub encoding_sniff_length : ℕ
encoding_sniff_length = 2000

-- atoi, as the C library has it: strtol, cut to an int
unfoldable pub atoi : Text → ℤ
atoi s = wrap32 (pos (to_long s))

unfoldable pub decode_page : Text → Text
decode_page raw =
    if contains_case_insensitive (take encoding_sniff_length raw) (codes "windows-1251")
    then decode_windows1251 raw
    else raw

-- The first group of a match, and the first two.
abbrev pub first_of : List Text → Option Text
first_of [] = none
first_of (m ∷ []) = none
first_of (m ∷ a ∷ ms) = some a

abbrev pub two_of : List Text → Option (Text × Text)
two_of [] = none
two_of (m ∷ []) = none
two_of (m ∷ a ∷ []) = none
two_of (m ∷ a ∷ b ∷ ms) = some (a, b)

module _ (pcre2 : Pcre2) where
  -- What the first group of the first match becomes, if there is one.
  unfoldable pub captured : {A : Type 0} → Text → List Flag → (Text → A) → A → Text → A
  captured pattern flags f d html = elim (first_of (first_match pcre2 pattern flags html)) [
    | none ↦ d
    | some m ↦ f m
  ]

  unfoldable pub rutracker_title : Text → Text
  rutracker_title html =
      captured (codes "<a[^>]*id\\s*=\\s*\"topic-title\"[^>]*>(.*?)</a>") (dot_all ∷ [])
        (λ m. trim (strip_html pcre2 m)) [] html

  -- The newlines that are put before the markers of a post.
  unfoldable pub marked : Text → Text
  marked html =
      replace_all_regex pcre2 (codes "><span class=\"post-b\">") []
        (codes ">\n<span class=\"post-b\">")
        (replace_all_regex pcre2 (codes "<span class=\"post-br\">") []
          (codes "\n<span class=\"post-br\">") html)

  unfoldable pub parse_rutracker_html : Text → TrackerSiteInfo
  parse_rutracker_html raw =
      let html = marked (decode_page raw) in
      let title = rutracker_title html in
      if null raw || null (decode_page raw) || null title then nothing_on rutracker else record {
        tracker_name = rutracker;
        name = title;
        poster =
            captured
              (codes
                "<(?:var|img)[^>]*class\\s*=\\s*\"postImg(?:Aligned)?\"[^>]*title\\s*=\\s*\"([^\"]+)\"")
              [] trim [] html;
        description =
            captured (codes "<div[^>]*class\\s*=\\s*\"post_body\"[^>]*>(.*?)</div\\s*>\\s*</td>")
              (dot_all ∷ []) (λ m. trim (truncate_description (strip_html pcre2 m))) [] html;
        content_category =
            captured
              (codes
                "<td[^>]*class\\s*=\\s*\"vBottom\"[^>]*>.*?<[^>]*class\\s*=\\s*\"nav\"[^>]*>(.*?)</(?:div|td)>")
              (dot_all ∷ [])
              (λ m.
                trim (replace_all_regex pcre2 (codes "\\s+") [] (codes " ") (strip_html pcre2 m)))
              [] html;
        thread_id =
            captured
              (codes
                "<a[^>]*class\\s*=\\s*\"magnet-link(?:-1)?\"[^>]*data-topic_id\\s*=\\s*\"(\\d+)\"")
              [] atoi (pos 0) html;
        success = true;
      }

  -- The panel title of a page of Nyaa; an empty text stands for none.
  unfoldable pub nyaa_title : Text → Text
  nyaa_title raw =
      let title =
        captured (codes "<h3[^>]*class\\s*=\\s*\"panel-title\"[^>]*>(.*?)</h3>") (dot_all ∷ [])
          (λ m. replace_all_regex pcre2 (codes "[\\t\\n]+") [] [] (trim (strip_html pcre2 m))) []
          raw in
      if eq_text title (codes "Nyaa") then [] else title

  unfoldable pub nyaa_description : Text → Text
  nyaa_description raw =
      captured (codes "<div[^>]*id\\s*=\\s*\"torrent-description\"[^>]*>(.*?)</div>") (dot_all ∷ [])
        (λ m. truncate_description (trim (strip_html pcre2 m))) [] raw

  unfoldable pub titled : Text → TrackerSiteInfo
  titled title =
      if null title
      then nothing_on nyaa
      else record (nothing_on nyaa) { name = title; success = true }

  unfoldable pub parse_nyaa_search_html : Text → TrackerSiteInfo
  parse_nyaa_search_html raw =
      let found = two_of (
        first_match pcre2 (codes "<a[^>]*href\\s*=\\s*\"/view/(\\d+)\"[^>]*>([^<]+)</a>") [] raw) in
      let info : TrackerSiteInfo = elim found [
        | some (id, title) ↦ record (nothing_on nyaa) {
          thread_id = atoi id;
          name = trim title;
          success = true;
        }
        | none ↦ titled (nyaa_title raw)
      ] in
      if null raw then nothing_on nyaa else record info { description = nyaa_description raw }

  unfoldable pub parse_nyaa_view_html : Text → TrackerSiteInfo
  parse_nyaa_view_html raw =
      let info = titled (nyaa_title raw) in
      if null raw || not info.success then nothing_on nyaa else record info {
        description = nyaa_description raw;
        thread_id = captured (codes "/view/(\\d+)") [] atoi (pos 0) raw;
      }
