-- ===== src/Engine/Sites/Html.antt =====
-- native/engine/site_scraper.cpp: the helpers on text, and what is done with the matches of PCRE2,
-- which is a parameter. `exec` is pcre2_match from a position on: none if there is no match, and else
-- the two ends of the match and the groups, a group that took no part being none.
use rats_search_tui.Base.{
  ℕ, zero, suc, ◌+◌, ◌-◌, ◌*◌, ◌^◌, ◌≤◌, min, ◌≡◌, ltb, ◌==◌, Bool, ◌&&◌, List, [], ◌∷◌, ◌++◌,
  Option, none, some, Text, codes, map, is_prefix, is_digit, take, drop, length, contains, to_lower,
  if◌then◌else◌,
}
use rats_search_tui.Domain.Filter.{trim}
use rats_search_tui.Engine.Sites.Encoding.{utf8_encode}

pub data Flag : Type 0 where
  dot_all : Flag
  caseless : Flag

pub record Match : Type 0 where
  pub start : ℕ
  pub end : ℕ
  pub groups : List (Option (ℕ × ℕ))

pub record Pcre2 : Type 1 where
  pub Code : Type 0
  pub compile : Text → List Flag → Option Code
  pub exec : Code → Text → ℕ → Option Match

-- A match that starts at a position lies behind it and within the subject.
pub record Pcre2Laws (pcre2 : Pcre2) : Type 0 where
  pub from_position :
      (code : pcre2.Code) (s : Text) (pos : ℕ) (m : Match)
      → pcre2.exec code s pos ≡ some m
      → pos ≤ m.start
  pub ordered :
      (code : pcre2.Code) (s : Text) (pos : ℕ) (m : Match)
      → pcre2.exec code s pos ≡ some m
      → m.start ≤ m.end
  pub in_subject :
      (code : pcre2.Code) (s : Text) (pos : ℕ) (m : Match)
      → pcre2.exec code s pos ≡ some m
      → m.end ≤ length s

-- s.substr(from, to - from)
abbrev pub between : ℕ → ℕ → Text → Text
between from to s = take (to - from) (drop from s)

unfoldable pub join : Text → List Text → Text
join sep [] = []
join sep (p ∷ []) = p
join sep (p ∷ q ∷ ps) = p ++ sep ++ join sep (q ∷ ps)

unfoldable pub contains_case_insensitive : Text → Text → Bool
contains_case_insensitive haystack needle_lower = contains (to_lower haystack) needle_lower

-- The number that strtol reads at the head of a text of digits, up to LONG_MAX.
digits_from : ℕ → Text → ℕ
digits_from n [] = n
digits_from n (c ∷ s) = if is_digit c then digits_from (n * 10 + (c - b'0')) s else n

unfoldable pub to_long : Text → ℕ
unfolding digits_from
to_long s = min (digits_from 0 s) (2 ^ 63 - 1)

abbrev pub group_text : Text → Option (ℕ × ℕ) → Text
group_text s none = []
group_text s (some (from, to)) = between from to s

-- One round of the loop of decodeNumericEntities puts this in the place of a match.
unfoldable pub entity_text : Text → Match → Text
entity_text s m = elim m.groups [
  | _ ∷ some (from, to) ∷ _ ↦
      let codepoint = to_long (between from to s) in
      if ltb 0 codepoint && ltb codepoint 0x10FFFF then utf8_encode codepoint else []
  | _ ↦ []
]

-- The lambda replaceLiteral of stripHtml; `skip` bytes of a match are still to be passed over.
unfoldable pub replace_literal : Text → Text → ℕ → Text → Text
replace_literal from to skip [] = []
replace_literal from to (suc skip) (c ∷ s) = replace_literal from to skip s
replace_literal from to zero (c ∷ s) =
    if is_prefix from (c ∷ s)
    then to ++ replace_literal from to (length from - 1) s
    else c ∷ replace_literal from to zero s

-- The texts between the newlines.
unfoldable pub lines_of : Text → List Text
lines_of [] = [] ∷ []
lines_of (c ∷ s) = elim (lines_of s) [
  | [] ↦ [] ∷ []
  | l ∷ ls ↦ if c == b'\n' then [] ∷ l ∷ ls else (c ∷ l) ∷ ls
]

abbrev pub max_description_length : ℕ
max_description_length = 5000

unfoldable pub truncate_description : Text → Text
truncate_description s =
    if ltb max_description_length (length s)
    then take max_description_length s ++ codes "..."
    else s

-- The common entities, in the order in which they are replaced.
abbrev pub entities : List (Text × Text)
entities =
    (codes "&amp;", codes "&")
    ∷ (codes "&lt;", codes "<")
    ∷ (codes "&gt;", codes ">")
    ∷ (codes "&quot;", codes "\"")
    ∷ (codes "&apos;", codes "'")
    ∷ (codes "&#39;", codes "'")
    ∷ (codes "&nbsp;", codes " ")
    ∷ (codes "&#160;", codes " ")
    ∷ []

unfoldable pub replace_each : List (Text × Text) → Text → Text
replace_each [] s = s
replace_each ((from, to) ∷ es) s = replace_each es (replace_literal from to 0 s)

-- A round of a loop over matches ends the loop with a text, or goes on at a position behind one.
pub data Round : Type 0 where
  last : Text → Round
  next : Text → ℕ → Round

-- Such a loop from a position on; none if the fuel runs out.
unfoldable pub rounds : (ℕ → Round) → ℕ → ℕ → Option Text
rounds step zero pos = none
rounds step (suc fuel) pos = elim (step pos) [
  | last t ↦ some t
  | next t after ↦ elim (rounds step fuel after) [ none ↦ none | some rest ↦ some (t ++ rest) ]
]

module _ (pcre2 : Pcre2) where
  open pcre2 use {Code, compile, exec}

  first_groups : Text → Option Match → List Text
  first_groups s none = []
  first_groups s (some m) = map (group_text s) m.groups

  -- The groups of the first match, the whole match first.
  unfoldable pub first_match : Text → List Flag → Text → List Text
  unfolding first_groups
  first_match pattern flags s = elim (compile pattern flags) [
    | none ↦ []
    | some code ↦ first_groups s (exec code s 0)
  ]

  -- A round of the loop of replaceAllRegex at a position.
  unfoldable pub replace_round : Code → Text → Text → ℕ → Round
  replace_round code s to pos = elim (exec code s pos) [
    | none ↦ last (drop pos s)
    | some m ↦
        if ltb pos m.end
        then next (between pos m.start s ++ to) m.end
        else if ltb (length s) (m.end + 1)
        then last (between pos m.start s ++ to)
        else next (between pos m.start s ++ to ++ take 1 (drop m.end s)) (m.end + 1)
  ]

  abbrev pub text_or : Text → Option Text → Text
  text_or d none = d
  text_or d (some t) = t

  unfoldable pub replace_all_regex : Text → List Flag → Text → Text → Text
  replace_all_regex pattern flags to s = elim (compile pattern flags) [
    | none ↦ s
    | some code ↦ text_or [] (rounds (replace_round code s to) (suc (suc (length s))) 0)
  ]

  -- A round of the loop of decodeNumericEntities.
  unfoldable pub entity_round : Code → Text → ℕ → Round
  entity_round code s pos = elim (exec code s pos) [
    | none ↦ last (drop pos s)
    | some m ↦
        let after = if ltb pos m.end then m.end else pos + 1 in
        if ltb (length s) after
        then last (between pos m.start s ++ entity_text s m)
        else next (between pos m.start s ++ entity_text s m) after
  ]

  unfoldable pub decode_numeric_entities : Text → Text
  decode_numeric_entities s = elim (compile (codes "&#(\\d+);") []) [
    | none ↦ s
    | some code ↦ text_or [] (rounds (entity_round code s) (suc (suc (length s))) 0)
  ]

  -- The tags are taken out of stripHtml's text,
  unfoldable pub strip_tags : Text → Text
  strip_tags html =
      let t1 = replace_all_regex (codes "<br\\s*/?>") (caseless ∷ []) (codes "\n") html in
      let t2 =
        replace_all_regex (codes "</(?:p|div|li|tr|h[1-6])>") (caseless ∷ []) (codes "\n") t1 in
      replace_all_regex (codes "<[^>]*>") [] [] t2

  -- and the rest of it is decoded and trimmed.
  unfoldable pub strip_html : Text → Text
  strip_html html =
      let text = decode_numeric_entities (replace_each entities (strip_tags html)) in
      let short = replace_all_regex (codes "\\n{3,}") [] (codes "\n\n") text in
      trim (join (codes "\n") (map trim (lines_of short)))
