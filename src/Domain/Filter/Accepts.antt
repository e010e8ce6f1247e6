-- ===== src/Domain/Filter/Accepts.antt =====
-- What the filter of native/domain/filter_policy.cpp accepts, said without its checks.
use rats_search_tui.Base.{
  pos, ◌≤ℤ◌, ◌≡◌, ◌≢◌, ◌↔◌, ◌⊎◌, refl, true, false, not, ◌||◌, List, [], ◌∷◌, none, some, Text,
  codes, eq_text, eq_text_iff, to_lower, contains, All, Any, null, if◌then◌else◌, arith,
}
use rats_search_tui.Domain.Content.{ContentType, xxx, games, eq_type, type_to_string}
use rats_search_tui.Domain.Torrent.{Torrent}
use rats_search_tui.Domain.Json.{JsonOps}
use rats_search_tui.Domain.Filter.Trackers.{TrackersAllowed, check_tracker_policy_iff}
use rats_search_tui.Domain.Filter.{
  FilterSettings, RegexOps, trim, equals_ignore_case, split_csv, check_file_count, check_size,
  check_adult, adult_keywords, find_keyword, check_naming_reg_exp, content_type_loop,
  check_content_type, tracker_names, check_tracker_policy, compile_naming_regex, rejection_reason,
  accepts, ◌or_else◌,
}

-- A limit that is not positive is no limit.
abbrev pub SizesFit : {J : Type 0} → FilterSettings → Torrent J → Type 0
SizesFit s t =
    ((s.max_files ≤ℤ pos 0) ⊎ (t.files ≤ℤ s.max_files))
    × ((s.size_min ≤ℤ pos 0) ⊎ (s.size_min ≤ℤ t.size))
    × ((s.size_max ≤ℤ pos 0) ⊎ (t.size ≤ℤ s.size_max))

abbrev pub IsDecent : {J : Type 0} → FilterSettings → Torrent J → Type 0
IsDecent s t =
    (s.adult_filter ≡ false)
    ⊎ (All (λ k. contains (to_lower t.name) k ≡ false) adult_keywords × (t.content_category ≢ xxx))

-- Whether a token of the filter stands for the type: "application" is software and games.
abbrev pub StandsFor : ContentType → Text → Type 0
StandsFor type token =
    ((to_lower (trim token) ≡ codes "application")
      × ((type ≡ ContentType.software) ⊎ (type ≡ games)))
    ⊎ (to_lower (trim token) ≡ type_to_string type)

abbrev pub TypeAllowed : {J : Type 0} → FilterSettings → Torrent J → Type 0
TypeAllowed s t =
    (s.content_type_filter ≡ [])
    ⊎ (to_lower s.content_type_filter ≡ codes "all")
    ⊎ (split_csv s.content_type_filter ≡ [])
    ⊎ Any (StandsFor t.content_type) (split_csv s.content_type_filter)

check_file_count_iff :
    {J : Type 0} (s : FilterSettings) (t : Torrent J)
    → (check_file_count s t ≡ []) ↔ ((s.max_files ≤ℤ pos 0) ⊎ (t.files ≤ℤ s.max_files))
unfolding check_file_count
check_file_count_iff s t = ground arith

check_size_iff :
    {J : Type 0} (s : FilterSettings) (t : Torrent J)
    → (check_size s t ≡ []) ↔ (
        ((s.size_min ≤ℤ pos 0) ⊎ (s.size_min ≤ℤ t.size))
        × ((s.size_max ≤ℤ pos 0) ⊎ (t.size ≤ℤ s.size_max)))
unfolding check_size
check_size_iff s t = ground arith

find_keyword_iff :
    (name : Text) (ks : List Text)
    → (find_keyword name ks ≡ none) ↔ All (λ k. contains name k ≡ false) ks
unfolding find_keyword
find_keyword_iff name [] = (λ e. tt, λ e. refl)
find_keyword_iff name (k ∷ ks) = ground (arith, find_keyword_iff name ks)

check_adult_iff :
    {J : Type 0} (s : FilterSettings) (t : Torrent J) → (check_adult s t ≡ []) ↔ IsDecent s t
unfolding check_adult
check_adult_iff s t = ground (arith, find_keyword_iff (to_lower t.name) adult_keywords)

type_name_lower : (t : ContentType) → to_lower (type_to_string t) ≡ type_to_string t
unfolding to_lower type_to_string
type_name_lower ContentType.video = refl
type_name_lower _ = refl

type_name_not_application : (t : ContentType) → type_to_string t ≢ codes "application"
unfolding type_to_string
type_name_not_application t e = ground arith

application_lower : to_lower (codes "application") ≡ codes "application"
unfolding to_lower
application_lower = refl

umbrella_iff :
    (t : ContentType)
    → ((eq_type t ContentType.software || eq_type t games) ≡ true)
      ↔ ((t ≡ ContentType.software) ⊎ (t ≡ games))
umbrella_iff ContentType.video = ground arith
umbrella_iff _ = ground arith

content_type_step :
    (t : ContentType) (raw : Text) (tokens : List Text)
    → (content_type_loop t (raw ∷ tokens) ≡ [])
      ↔ (StandsFor t raw ⊎ (content_type_loop t tokens ≡ []))
unfolding content_type_loop equals_ignore_case
content_type_step t raw tokens =
    rw (application_lower, type_name_lower t)
      (ground (
        arith,
        umbrella_iff t,
        eq_text_iff (to_lower (trim raw)) (codes "application"),
        eq_text_iff (type_to_string t) (to_lower (trim raw)),
        type_name_not_application t,
      ))

all_lower : to_lower (codes "all") ≡ codes "all"
unfolding to_lower
all_lower = refl

content_type_loop_iff :
    (t : ContentType) (tokens : List Text)
    → (content_type_loop t tokens ≡ []) ↔ Any (StandsFor t) tokens
unfolding content_type_loop
content_type_loop_iff t [] = (λ e. cc, λ e. absurd e)
content_type_loop_iff t (raw ∷ tokens) =
    ground (arith, content_type_step t raw tokens, content_type_loop_iff t tokens)

content_type_cases :
    (filter : Text) (tokens : List Text) (loop : Text) (P : Type 0)
    → (loop ≡ []) ↔ P
    → ((if null filter || eq_text (to_lower filter) (to_lower (codes "all"))
          then []
          else if null tokens
          then []
          else loop)
        ≡ [])
      ↔ ((filter ≡ []) ⊎ (to_lower filter ≡ codes "all") ⊎ (tokens ≡ []) ⊎ P)
content_type_cases filter tokens loop P h =
    rw all_lower (ground (arith, h, eq_text_iff (to_lower filter) (codes "all")))

check_content_type_iff :
    {J : Type 0} (s : FilterSettings) (t : Torrent J)
    → (check_content_type s t ≡ []) ↔ TypeAllowed s t
unfolding check_content_type equals_ignore_case
check_content_type_iff s t =
    content_type_cases s.content_type_filter (split_csv s.content_type_filter) _ _
      (content_type_loop_iff t.content_type (split_csv s.content_type_filter))

module _ (regex : RegexOps) where
  -- No pattern, one that does not compile, or a match exactly where the pattern is not negative.
  abbrev pub NameAllowed : {J : Type 0} → FilterSettings → Torrent J → Type 0
  NameAllowed s t =
      (s.naming_reg_exp ≡ [])
      ⊎ (regex.compile s.naming_reg_exp ≡ none)
      ⊎ ((code : regex.Code) × (regex.compile s.naming_reg_exp ≡ some code)
          × (regex.matches code t.name ≡ not s.naming_reg_exp_negative))

  check_naming_iff :
      {J : Type 0} (s : FilterSettings) (t : Torrent J)
      → (check_naming_reg_exp regex (compile_naming_regex regex s) t ≡ []) ↔ NameAllowed s t
  unfolding check_naming_reg_exp compile_naming_regex
  check_naming_iff s t = ground arith

all_pass :
    (a b c d e f : Text)
    → (null (a or_else b or_else c or_else d or_else e or_else f) ≡ true)
      ↔ ((a ≡ []) × (b ≡ []) × (c ≡ []) × (d ≡ []) × (e ≡ []) × (f ≡ []))
all_pass a b c d e f = ground arith

module _ (json : JsonOps) (regex : RegexOps) where
  pub record IsAcceptable (s : FilterSettings) (t : Torrent json.Json) : Type 0 where
    pub sizes : SizesFit s t
    pub decent : IsDecent s t
    pub name : NameAllowed regex s t
    pub type : TypeAllowed s t
    pub trackers : TrackersAllowed s (tracker_names json t.info)

  -- A policy made from settings accepts exactly the torrents within the limits that are positive,
  -- with no adult keyword or category if that filter is on, with a name that the pattern allows if
  -- there is one that compiles, with a type that a token of the type filter stands for if it has
  -- tokens and is not "all", and with trackers that the lists allow. A torrent that names no tracker
  -- passes both lists, a list of allowed trackers that is not empty included, unless a known tracker
  -- is required; one that names some has none on the deny list and, where the allow list is not empty,
  -- one on it.
  pub accepts_iff :
      (s : FilterSettings) (t : Torrent json.Json)
      → (accepts json regex (compile_naming_regex regex s) t ≡ true) ↔ IsAcceptable s t
  unfolding accepts rejection_reason compile_naming_regex
  accepts_iff s t =
      let (none_rejects, rejects_none) =
        all_pass (check_file_count s t) (check_size s t) (check_adult s t)
          (check_naming_reg_exp regex (compile_naming_regex regex s) t) (check_content_type s t)
          (check_tracker_policy json s t) in
      (
        λ e.
            let passed = none_rejects e in
            record {
              sizes = (
                (check_file_count_iff s t).0 passed.0,
                ((check_size_iff s t).0 passed.1).0,
                ((check_size_iff s t).0 passed.1).1,
              );
              decent = (check_adult_iff s t).0 passed.2;
              name = (check_naming_iff regex s t).0 passed.3;
              type = (check_content_type_iff s t).0 passed.4;
              trackers = (check_tracker_policy_iff json s t).0 passed.5;
            },
        λ ok. rejects_none (
          (check_file_count_iff s t).1 ok.sizes.0,
          (check_size_iff s t).1 (ok.sizes.1, ok.sizes.2),
          (check_adult_iff s t).1 ok.decent,
          (check_naming_iff regex s t).1 ok.name,
          (check_content_type_iff s t).1 ok.type,
          (check_tracker_policy_iff json s t).1 ok.trackers,
        ),
      )
