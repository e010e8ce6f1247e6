-- ===== src/Engine/Sites/Merged.antt =====
-- What native/engine/site_scraper.cpp reports of the results of its strategies.
use rats_search_tui.Base.{
  ℤ, ◌≡◌, refl, ◌∙◌, Bool, true, false, not, ◌&&◌, List, [], ◌∷◌, map, Option, none, some, Text,
  codes, eq_text, null, is_some, Bool-cases, inl, inr, if_intro, if◌then◌else◌,
}
use rats_search_tui.Domain.Json.{JsonOps, JsonLaws}
use rats_search_tui.Engine.Sites.Pages.{TrackerSiteInfo, rutracker, nyaa}
use rats_search_tui.Engine.Sites.Report.{
  keep_first, set_thread, set_category, set_title, own_fields, merge_result, merge_results,
  list_trackers, folded,
}

-- The first of two texts that is not empty, and that of a list.
abbrev pub or_text : Text → Text → Text
or_text a b = if null a then b else a

abbrev pub first_filled : List Text → Text
first_filled [] = []
first_filled (t ∷ ts) = or_text t (first_filled ts)

or_text_assoc : (a b c : Text) → or_text (or_text a b) c ≡ or_text a (or_text b c)
or_text_assoc [] b c = refl
or_text_assoc (x ∷ a) b c = refl

or_text_nil : (a : Text) → or_text a [] ≡ a
or_text_nil [] = refl
or_text_nil (x ∷ a) = refl

module _ (json : JsonOps) (laws : JsonLaws json) where
  open json use {Json, object, of_string, set, find, is_object, value_string}

  abbrev held : Text → Option Json
  held [] = none
  held (c ∷ t) = some (of_string (c ∷ t))

  -- An object that has a text under a key, or nothing if the text is empty.
  record Holds (key text : Text) (o : Json) : Type 0 where
    is_obj : is_object o ≡ true
    found : find o key ≡ held text

  value-Holds : (key text : Text) (o : Json) → Holds key text o → value_string o key [] ≡ text
  value-Holds key [] o h = laws.value_string_absent o key [] h.is_obj h.found
  value-Holds key (c ∷ t) o h = laws.value_string_present o key (c ∷ t) [] h.is_obj h.found

  set-Holds :
      (key text other : Text) (v o : Json)
      → eq_text other key ≡ false
      → Holds key text o
      → Holds key text (set o other v)
  set-Holds key text other v o e h = record {
    is_obj = laws.set_is_object o other v h.is_obj;
    found = laws.find_set o other key v h.is_obj ∙ rw e h.found;
  }

  keep_first-Holds :
      (key text value : Text) (o : Json)
      → eq_text key key ≡ true
      → Holds key text o
      → Holds key (or_text text value) (keep_first json key value o)
  unfolding keep_first
  keep_first-Holds key [] [] o e h = rw (value-Holds key [] o h) h
  keep_first-Holds key [] (c ∷ t) o e h = rw (value-Holds key [] o h) (record {
    is_obj = laws.set_is_object o key (of_string (c ∷ t)) h.is_obj;
    found = laws.find_set o key key (of_string (c ∷ t)) h.is_obj ∙ rw e refl;
  })
  keep_first-Holds key (c ∷ t) value o e h = rw (value-Holds key (c ∷ t) o h) h

  -- The members that the rest of a round sets.
  record IsShared (key : Text) : Type 0 where
    same : eq_text key key ≡ true
    not_rutracker_thread : eq_text (codes "rutrackerThreadId") key ≡ false
    not_nyaa_thread : eq_text (codes "nyaaThreadId") key ≡ false
    not_category : eq_text (codes "contentCategory") key ≡ false
    not_title : eq_text (codes "trackerName") key ≡ false
    not_trackers : eq_text (codes "trackers") key ≡ false

  module _ (key : Text) (shared : IsShared key) (text : Text) where
    set_if-Holds :
        (b : Bool) (other : Text) (v o : Json)
        → eq_text other key ≡ false
        → Holds key text o
        → Holds key text (if b then set o other v else o)
    set_if-Holds b other v o e h = if_intro (Holds key text) b (set-Holds key text other v o e h) h

    keep_other-Holds :
        (other value : Text) (o : Json)
        → eq_text other key ≡ false
        → Holds key text o
        → Holds key text (keep_first json other value o)
    unfolding keep_first
    keep_other-Holds other value o e h = set_if-Holds _ other (of_string value) o e h

    thread-Holds :
        (other : Text) (id : ℤ) (o : Json)
        → eq_text other key ≡ false
        → Holds key text o
        → Holds key text (set_thread json other id o)
    unfolding set_thread
    thread-Holds other id o e h = set_if-Holds _ other (json.of_int id) o e h

    category-Holds :
        (category : Text) (o : Json)
        → Holds key text o
        → Holds key text (set_category json category o)
    unfolding set_category
    category-Holds category o h =
        set_if-Holds (not (null category)) _ (of_string category) o shared.not_category h

    title-Holds :
        (title : Text) (o : Json) → Holds key text o → Holds key text (set_title json title o)
    unfolding set_title
    title-Holds title o h =
        set_if-Holds (not (null title) && not (is_some (find o (codes "trackerName")))) _
          (of_string title) o shared.not_title h

    own_fields-Holds :
        (r : TrackerSiteInfo) (o : Json) → Holds key text o → Holds key text (own_fields json r o)
    unfolding own_fields
    own_fields-Holds r o h =
        if_intro (Holds key text) (eq_text r.tracker_name rutracker)
          (title-Holds r.name _ (
            category-Holds r.content_category _ (
              thread-Holds (codes "rutrackerThreadId") r.thread_id o shared.not_rutracker_thread
                h)))
          (if_intro (Holds key text) (eq_text r.tracker_name nyaa)
            (thread-Holds (codes "nyaaThreadId") r.thread_id o shared.not_nyaa_thread h) h)

    folded-Holds :
        (rs : List TrackerSiteInfo)
        → Holds key text (merge_results json rs object)
        → Holds key text (folded json rs).1
    unfolding folded
    folded-Holds rs h = elim (Bool-cases (json.empty (list_trackers json rs json.array))) [
      | inl e ↦ rw e h
      | inr e ↦ rw e (set-Holds key text (codes "trackers") _ _ shared.not_trackers h)
    ]

  poster-IsShared : IsShared (codes "poster")
  poster-IsShared = record {
    same = refl;
    not_rutracker_thread = refl;
    not_nyaa_thread = refl;
    not_category = refl;
    not_title = refl;
    not_trackers = refl;
  }

  description-IsShared : IsShared (codes "description")
  description-IsShared = record {
    same = refl;
    not_rutracker_thread = refl;
    not_nyaa_thread = refl;
    not_category = refl;
    not_title = refl;
    not_trackers = refl;
  }

  posters-Hold :
      (rs : List TrackerSiteInfo) (text : Text) (o : Json)
      → Holds (codes "poster") text o
      → Holds
          (codes "poster")
          (or_text text (first_filled (map (λ r. r.poster) rs)))
          (merge_results json rs o)
  unfolding merge_results merge_result
  posters-Hold [] text o h = rw (or_text_nil text) h
  posters-Hold (r ∷ rs) text o h =
      rw (← or_text_assoc text r.poster (first_filled (map (λ r. r.poster) rs))) (
        posters-Hold rs (or_text text r.poster) _ (
          own_fields-Holds _ poster-IsShared _ r _ (
            keep_other-Holds _ poster-IsShared _ (codes "description") r.description _ refl
              (keep_first-Holds _ text r.poster o refl h))))

  descriptions-Hold :
      (rs : List TrackerSiteInfo) (text : Text) (o : Json)
      → Holds (codes "description") text o
      → Holds
          (codes "description")
          (or_text text (first_filled (map (λ r. r.description) rs)))
          (merge_results json rs o)
  unfolding merge_results merge_result
  descriptions-Hold [] text o h = rw (or_text_nil text) h
  descriptions-Hold (r ∷ rs) text o h =
      rw (← or_text_assoc text r.description (first_filled (map (λ r. r.description) rs))) (
        descriptions-Hold rs (or_text text r.description) _ (
          own_fields-Holds _ description-IsShared _ r _ (
            keep_first-Holds _ text r.description _ refl
              (keep_other-Holds _ description-IsShared _ (codes "poster") r.poster o refl h))))

  object-Holds : (key : Text) → Holds key [] object
  object-Holds key = record { is_obj = laws.object_is_object; found = laws.find_object key }

  -- Whatever the strategies found, the object that checkAllComplete makes of their results has as its
  -- poster the first poster among them that is not empty, and as its description the first
  -- description that is not empty; where there is none, the key is absent and reads as the empty text.
  pub report_first_wins :
      (rs : List TrackerSiteInfo)
      → (value_string (folded json rs).1 (codes "poster") []
          ≡ first_filled (map (λ r. r.poster) rs))
        × (value_string (folded json rs).1 (codes "description") []
            ≡ first_filled (map (λ r. r.description) rs))
  report_first_wins rs = (
    value-Holds _ _ _ (
        folded-Holds _ poster-IsShared _ rs
          (posters-Hold rs [] object (object-Holds (codes "poster")))),
    value-Holds _ _ _ (
        folded-Holds _ description-IsShared _ rs
          (descriptions-Hold rs [] object (object-Holds (codes "description")))),
  )
