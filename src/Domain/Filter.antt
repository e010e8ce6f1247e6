-- ===== src/Domain/Filter.antt =====
-- native/domain/filter_policy.h and filter_policy.cpp: whether a torrent is allowed into the index.
-- The JSON library and PCRE2 are parameters; a compiled pattern that is none is the null pointer
-- that a failed compilation leaves.
pub mod Csv
pub mod Trackers
pub mod Accepts
use rats_search_tui.Base.{
  ℕ, zero, suc, ℤ, pos, ltb_ℤ, Bool, true, false, not, ◌&&◌, ◌||◌, List, [], ◌∷◌, ◌++◌, map, Option,
  none, some, Text, codes, eq_text, to_lower, contains, drop_while, drop_while_end, before_after,
  length, null, any, to_string, ◌==◌, if◌then◌else◌,
}
use rats_search_tui.Domain.Content.{
  ContentType, ContentCategory, xxx, games, eq_type, eq_category, type_to_string,
}
use rats_search_tui.Domain.Torrent.{Torrent}
use rats_search_tui.Domain.Json.{JsonOps}

pub record FilterSettings : Type 0 where
  pub max_files : ℤ
  pub size_min : ℤ
  pub size_max : ℤ
  pub adult_filter : Bool
  pub naming_reg_exp : Text
  pub naming_reg_exp_negative : Bool
  pub content_type_filter : Text
  pub tracker_allow : List Text
  pub tracker_deny : List Text
  pub tracker_require_known : Bool

-- pcre2_compile with PCRE2_CASELESS, and whether pcre2_match returns a match
pub record RegexOps : Type 1 where
  pub Code : Type 0
  pub compile : Text → Option Code
  pub matches : Code → Text → Bool

pub record FilterPolicy (Code : Type 0) : Type 0 where
  pub settings : FilterSettings
  pub naming_regex : Option Code

abbrev pub is_blank : ℕ → Bool
is_blank c = c == b' ' || c == 9 || c == 13 || c == 10

unfoldable pub trim : Text → Text
trim s = drop_while_end is_blank (drop_while is_blank s)

unfoldable pub equals_ignore_case : Text → Text → Bool
equals_ignore_case a b = eq_text (to_lower a) (to_lower b)

-- The loop of splitCsv on the text from `start` on; a round of fuel for each comma.
unfoldable pub split_csv_loop : ℕ → Text → List Text
split_csv_loop zero s = []
split_csv_loop (suc f) s =
    let (piece, after) = before_after b',' s in
    let rest : List Text = elim after [ none ↦ [] | some r ↦ split_csv_loop f r ] in
    if null piece then rest else piece ∷ rest

unfoldable pub split_csv : Text → List Text
unfolding split_csv_loop
split_csv s = split_csv_loop (suc (length s)) s

unfoldable pub check_file_count : {J : Type 0} → FilterSettings → Torrent J → Text
check_file_count s t =
    if ltb_ℤ (pos 0) s.max_files && ltb_ℤ s.max_files t.files
    then codes "Too many files: " ++ to_string t.files ++ codes " > " ++ to_string s.max_files
    else []

unfoldable pub check_size : {J : Type 0} → FilterSettings → Torrent J → Text
check_size s t =
    if ltb_ℤ (pos 0) s.size_min && ltb_ℤ t.size s.size_min
    then codes "Size too small: " ++ to_string t.size ++ codes " < " ++ to_string s.size_min
    else if ltb_ℤ (pos 0) s.size_max && ltb_ℤ s.size_max t.size
    then codes "Size too large: " ++ to_string t.size ++ codes " > " ++ to_string s.size_max
    else []

abbrev pub adult_keywords : List Text
adult_keywords =
    codes "xxx" ∷ codes "porn" ∷ codes "sex" ∷ codes "adult" ∷ codes "18+" ∷ codes "nsfw" ∷ []

unfoldable pub find_keyword : Text → List Text → Option Text
find_keyword name [] = none
find_keyword name (k ∷ ks) = if contains name k then some k else find_keyword name ks

unfoldable pub check_adult : {J : Type 0} → FilterSettings → Torrent J → Text
unfolding find_keyword
check_adult s t =
    if not s.adult_filter then [] else elim (find_keyword (to_lower t.name) adult_keywords) [
      | some keyword ↦ codes "Adult content detected: " ++ keyword
      | none ↦ if eq_category t.content_category xxx then codes "Adult content category" else []
    ]

-- The loop of checkContentType over the tokens of the filter.
unfoldable pub content_type_loop : ContentType → List Text → Text
content_type_loop type [] = codes "Content type not allowed: " ++ type_to_string type
content_type_loop type (raw ∷ allowed) =
    let token = trim raw in
    let rest = content_type_loop type allowed in
    if equals_ignore_case token (codes "application")
    then (if eq_type type ContentType.software || eq_type type games then [] else rest)
    else if equals_ignore_case (type_to_string type) token
    then []
    else rest

unfoldable pub check_content_type : {J : Type 0} → FilterSettings → Torrent J → Text
unfolding content_type_loop
check_content_type s t =
    if null s.content_type_filter || equals_ignore_case s.content_type_filter (codes "all")
    then []
    else let allowed = split_csv s.content_type_filter in
      if null allowed then [] else content_type_loop t.content_type allowed

-- The tracker that a deny entry matches, in the order of the trackers.
unfoldable pub find_denied : List Text → List Text → Option Text
find_denied deny [] = none
find_denied deny (tr ∷ trackers) =
    if any (equals_ignore_case tr) deny then some tr else find_denied deny trackers

module _ (json : JsonOps) where
  open json use {Json, is_object, is_array, is_string, find, elements, get_string}

  string_elements : List Json → List Text
  string_elements [] = []
  string_elements (v ∷ vs) =
      if is_string v then to_lower (get_string v) ∷ string_elements vs else string_elements vs

  -- The lower-case names in info["trackers"].
  unfoldable pub tracker_names : Json → List Text
  unfolding string_elements
  tracker_names info =
      if is_object info
      then elim (find info (codes "trackers")) [
        | none ↦ []
        | some arr ↦ if is_array arr then string_elements (elements arr) else []
      ]
      else []

  unfoldable pub check_tracker_policy : FilterSettings → Torrent Json → Text
  unfolding find_denied
  check_tracker_policy s t =
      if null s.tracker_allow && null s.tracker_deny && not s.tracker_require_known
      then []
      else let trackers = tracker_names t.info in
        if null trackers
        then (if s.tracker_require_known
            then codes "No tracker identity (trackerRequireKnown)"
            else [])
        else elim (find_denied s.tracker_deny trackers) [
          | some tr ↦ codes "Tracker denied: " ++ tr
          | none ↦
              if not (null s.tracker_allow)
              then (if any (λ tr. any (equals_ignore_case tr) s.tracker_allow) trackers
                  then []
                  else codes "Tracker not in allow list")
              else []
        ]

module _ (regex : RegexOps) where
  open regex use {Code, compile, matches}

  unfoldable pub is_valid_naming_reg_exp : Text → Bool
  is_valid_naming_reg_exp pattern =
      if null pattern then true else elim (compile pattern) [ some code ↦ true | none ↦ false ]

  -- compileNamingRegex, which the constructor and setSettings call
  unfoldable pub compile_naming_regex : FilterSettings → FilterPolicy Code
  compile_naming_regex s = record {
    settings = s;
    naming_regex = if null s.naming_reg_exp then none else compile s.naming_reg_exp;
  }

  unfoldable pub check_naming_reg_exp : {J : Type 0} → FilterPolicy Code → Torrent J → Text
  check_naming_reg_exp p t = if null p.settings.naming_reg_exp then [] else elim p.naming_regex [
    | none ↦ []
    | some code ↦
        if p.settings.naming_reg_exp_negative
        then (if matches code t.name
            then codes "Name matches blocked pattern: " ++ p.settings.naming_reg_exp
            else [])
        else if not (matches code t.name)
        then codes "Name doesn't match required pattern: " ++ p.settings.naming_reg_exp
        else []
  ]

-- if (std::string r = check(t); !r.empty()) return r;
infixr 20 ◌or_else◌
abbrev pub ◌or_else◌ : Text → Text → Text
r or_else k = if null r then k else r

module _ (json : JsonOps) (regex : RegexOps) where
  unfoldable pub rejection_reason : FilterPolicy regex.Code → Torrent json.Json → Text
  rejection_reason p t =
      check_file_count p.settings t
      or_else check_size p.settings t
      or_else check_adult p.settings t
      or_else check_naming_reg_exp regex p t
      or_else check_content_type p.settings t
      or_else check_tracker_policy json p.settings t

  unfoldable pub accepts : FilterPolicy regex.Code → Torrent json.Json → Bool
  accepts p t = null (rejection_reason p t)
