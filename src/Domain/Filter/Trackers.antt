-- ===== src/Domain/Filter/Trackers.antt =====
-- checkTrackerPolicy of native/domain/filter_policy.cpp, said without its loops.
use rats_search_tui.Base.{
  ◌≡◌, ◌≢◌, ◌↔◌, ◌⊎◌, refl, Bool, true, false, not, ◌&&◌, ◌++◌, List, [], ◌∷◌, Option, none, some,
  Text, codes, eq_text_iff, to_lower, All, Any, any, null, if◌then◌else◌, any_iff, not_any_iff,
  arith,
}
use rats_search_tui.Domain.Torrent.{Torrent}
use rats_search_tui.Domain.Json.{JsonOps}
use rats_search_tui.Domain.Filter.{
  FilterSettings, equals_ignore_case, find_denied, tracker_names, check_tracker_policy,
}

-- A tracker is named like an entry of a list, in any case.
abbrev pub IsNamedIn : Text → List Text → Type 0
IsNamedIn tr entries = Any (λ e. to_lower tr ≡ to_lower e) entries

abbrev pub IsNotNamedIn : Text → List Text → Type 0
IsNotNamedIn tr entries = All (λ e. to_lower tr ≢ to_lower e) entries

-- A torrent with no tracker is allowed unless one is required; any other has no tracker that is
-- denied, and one that is allowed where there is a list of these.
abbrev pub TrackersAllowed : FilterSettings → List Text → Type 0
TrackersAllowed s names =
    ((names ≡ []) × (s.tracker_require_known ≡ false))
    ⊎ ((names ≢ [])
        × All (λ tr. IsNotNamedIn tr s.tracker_deny) names
        × ((s.tracker_allow ≡ []) ⊎ Any (λ tr. IsNamedIn tr s.tracker_allow) names))

equals_ignore_case_iff : (a b : Text) → (equals_ignore_case a b ≡ true) ↔ (to_lower a ≡ to_lower b)
unfolding equals_ignore_case
equals_ignore_case_iff a b = eq_text_iff (to_lower a) (to_lower b)

not_equals_ignore_case_iff :
    (a b : Text) → (equals_ignore_case a b ≡ false) ↔ (to_lower a ≢ to_lower b)
not_equals_ignore_case_iff a b = ground (arith, equals_ignore_case_iff a b)

find_denied_iff :
    (deny names : List Text)
    → (find_denied deny names ≡ none) ↔ All (λ tr. IsNotNamedIn tr deny) names
unfolding find_denied
find_denied_iff deny [] = (λ e. tt, λ e. refl)
find_denied_iff deny (tr ∷ names) = ground (
  arith,
  find_denied_iff deny names,
  not_any_iff _ (equals_ignore_case tr) (not_equals_ignore_case_iff tr) deny,
)

allowed_iff :
    (allow names : List Text)
    → (any (λ tr. any (equals_ignore_case tr) allow) names ≡ true)
      ↔ Any (λ tr. IsNamedIn tr allow) names
allowed_iff allow names = any_iff _ _ (λ tr. any_iff _ _ (equals_ignore_case_iff tr) allow) names

no_deny_list : (names : List Text) → All (λ tr. IsNotNamedIn tr []) names
no_deny_list [] = tt
no_deny_list (tr ∷ names) = (tt, no_deny_list names)

no_deny : (deny names : List Text) → deny ≡ [] → All (λ tr. IsNotNamedIn tr deny) names
no_deny deny names e = rw e (no_deny_list names)

tracker_cases :
    (allow deny names : List Text) (known allowed : Bool) (denied : Option Text) (D P : Type 0)
    → (denied ≡ none) ↔ D
    → (allowed ≡ true) ↔ P
    → (deny ≡ [] → D)
    → ((if null allow && null deny && not known
          then []
          else if null names
          then (if known then codes "No tracker identity (trackerRequireKnown)" else [])
          else elim denied [
            | some tr ↦ codes "Tracker denied: " ++ tr
            | none ↦
                if not (null allow)
                then (if allowed then [] else codes "Tracker not in allow list")
                else []
          ])
        ≡ [])
      ↔ (((names ≡ []) × (known ≡ false)) ⊎ ((names ≢ []) × D × ((allow ≡ []) ⊎ P)))
tracker_cases allow deny names known allowed denied D P d p n = ground arith

module _ (json : JsonOps) where
  pub check_tracker_policy_iff :
      (s : FilterSettings) (t : Torrent json.Json)
      → (check_tracker_policy json s t ≡ []) ↔ TrackersAllowed s (tracker_names json t.info)
  unfolding check_tracker_policy
  check_tracker_policy_iff s t =
      let names = tracker_names json t.info in
      tracker_cases s.tracker_allow s.tracker_deny names s.tracker_require_known _ _ _ _
        (find_denied_iff s.tracker_deny names) (allowed_iff s.tracker_allow names)
        (no_deny s.tracker_deny names)
