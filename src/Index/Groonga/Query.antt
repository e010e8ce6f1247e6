-- ===== src/Index/Groonga/Query.antt =====
-- The text of commands in native/index/groonga_index.cpp: tokens in quotes, arguments and filters.
use rats_search_tui.Base.{
  ℕ, ℤ, pos, ltb_ℤ, ltb, ◌==◌, Bool, false, not, ◌&&◌, ◌||◌, List, [], ◌∷◌, ◌++◌, map, Option, none,
  some, Text, codes, eq_text, to_lower, to_string, is_xdigit, length, all, any, null, if◌then◌else◌,
}
use rats_search_tui.Domain.Content.{
  ContentType, xxx, games, type_to_id, category_to_id, content_type_from_string,
}
use rats_search_tui.Index.{SearchQuery}

abbrev pub output_columns : Text
output_columns =
    codes "_key,name,size,files,piece_length,added,content_type,content_category,"
    ++ codes "seeders,leechers,completed,good,bad,trackers_checked,info"

unfoldable pub is_hash_like : Text → Bool
is_hash_like s = length s == 40 && all is_xdigit s

-- What one byte becomes between the quotes.
unfoldable pub escaped : ℕ → Text
escaped c =
    if c == b'\\'
    then codes "\\\\"
    else if c == b'"'
    then codes "\\\""
    else if c == b'\n'
    then codes "\\n"
    else if c == b'\r'
    then codes "\\r"
    else if c == b'\t'
    then codes "\\t"
    else c ∷ []

unfoldable pub escape : Text → Text
escape [] = []
escape (c ∷ s) = escaped c ++ escape s

unfoldable pub quote_token : Text → Text
quote_token raw = b'"' ∷ escape raw ++ b'"' ∷ []

unfoldable pub arg : Text → Text → Text
arg flag value = codes " --" ++ flag ++ b' ' ∷ quote_token value

-- cmd += arg(flag, value) for each pair, in order.
unfoldable pub render : List (Text × Text) → Text
render [] = []
render ((flag, value) ∷ rest) = arg flag value ++ render rest

unfoldable pub join : Text → List Text → Text
join sep [] = []
join sep (p ∷ []) = p
join sep (p ∷ q ∷ ps) = p ++ sep ++ join sep (q ∷ ps)

-- std::isspace in the "C" locale, and the separators of words
abbrev pub is_space : ℕ → Bool
is_space c = c == 32 || (ltb 8 c && ltb c 14)

abbrev pub is_separator : ℕ → Bool
is_separator c = c == b' ' || c == b'\t' || c == b'\n' || c == b'\r'

abbrev pub last_byte : Text → Option ℕ
last_byte [] = none
last_byte (c ∷ s) = elim (last_byte s) [ none ↦ some c | some d ↦ some d ]

-- What stands behind the last separator.
unfoldable pub last_token : Text → Text
last_token [] = []
last_token (c ∷ s) = if any is_separator (c ∷ s) then last_token s else c ∷ s

abbrev pub ends_in : (ℕ → Bool) → Text → Bool
ends_in p s = elim (last_byte s) [ none ↦ false | some c ↦ p c ]

unfoldable pub apply_prefix_star : Text → Text
apply_prefix_star s =
    if null s || ends_in is_space s
    then s
    else let word = last_token s in
      if ltb (length word) 3 || ends_in (λ c. c == b'*') word then s else s ++ codes "*"

unfoldable pub content_type_filter_expr : Text → Text
content_type_filter_expr type =
    if null type
    then []
    else if eq_text type (codes "application")
    then codes "in_values(content_type, "
      ++ to_string (type_to_id ContentType.software)
      ++ codes ", "
      ++ to_string (type_to_id games)
      ++ codes ")"
    else codes "content_type == " ++ to_string (type_to_id (content_type_from_string type))

abbrev pub part_if : Bool → Text → List Text
part_if b p = if b then p ∷ [] else []

abbrev pub part_of : Text → List Text
part_of p = part_if (not (null p)) p

-- The condition that leaves adult content out.
unfoldable pub not_adult : Text
not_adult = codes "content_category != " ++ to_string (category_to_id xxx)

unfoldable pub filter_parts : SearchQuery → List Text
filter_parts q =
    part_if q.safe_search not_adult
    ++ part_of (content_type_filter_expr q.content_type)
    ++ part_if (ltb_ℤ (pos 0) q.size_min) (codes "size > " ++ to_string q.size_min)
    ++ part_if (ltb_ℤ (pos 0) q.size_max) (codes "size < " ++ to_string q.size_max)
    ++ part_if (ltb_ℤ (pos 0) q.files_min) (codes "files > " ++ to_string q.files_min)
    ++ part_if (ltb_ℤ (pos 0) q.files_max) (codes "files < " ++ to_string q.files_max)
    ++ part_if (ltb_ℤ (pos 0) q.seeders_min) (codes "seeders >= " ++ to_string q.seeders_min)
    ++ part_if (not (null q.tracker)) (codes "trackers @ " ++ quote_token (to_lower q.tracker))

unfoldable pub build_filter_expr : SearchQuery → Text
build_filter_expr q = join (codes " && ") (filter_parts q)

abbrev pub sort_columns : List Text
sort_columns =
    codes "seeders"
    ∷ codes "leechers"
    ∷ codes "name"
    ∷ codes "size"
    ∷ codes "files"
    ∷ codes "added"
    ∷ codes "completed"
    ∷ []

unfoldable pub resolve_sort_column : Text → Text
resolve_sort_column key =
    if any (λ a. eq_text a (to_lower key)) sort_columns then to_lower key else []

abbrev pub key_filter : Text → Text
key_filter hash = codes "_key == " ++ quote_token (to_lower hash)

abbrev pub arg_if : Bool → Text → Text → List (Text × Text)
arg_if b flag value = if b then (flag, value) ∷ [] else []

abbrev pub arg_of : Text → Text → List (Text × Text)
arg_of flag value = arg_if (not (null value)) flag value

-- The arguments of a match, the same for names and for paths.
unfoldable pub match_args : Text → SearchQuery → List (Text × Text)
match_args column q =
    (codes "match_columns", column)
    ∷ (codes "query", if q.strict then apply_prefix_star q.text else q.text)
    ∷ (codes "query_flags", codes "QUERY_NO_SYNTAX_ERROR")
    ∷ arg_if q.strict (codes "match_escalation_threshold") (codes "-1")

abbrev pub page_args : ℤ → ℤ → List (Text × Text)
page_args offset limit = (codes "offset", to_string offset) ∷ (codes "limit", to_string limit) ∷ []

unfoldable pub sort_keys : Bool → SearchQuery → Text
sort_keys is_hash q =
    let column = resolve_sort_column q.sort in
    if not (null column)
    then (if q.descending then codes "-" else []) ++ column
    else if not is_hash
    then codes "-_score"
    else []

unfoldable pub names_args : SearchQuery → List (Text × Text)
names_args q =
    let is_hash = is_hash_like q.text in
    let parts = part_if is_hash (key_filter q.text) ++ part_of (build_filter_expr q) in
    (codes "output_columns", output_columns) ∷ arg_of (codes "filter") (join (codes " && ") parts)
    ++ (if is_hash then [] else match_args (codes "name") q)
    ++ arg_of (codes "sort_keys") (sort_keys is_hash q)
    ++ page_args q.offset q.limit

unfoldable pub files_args : SearchQuery → List (Text × Text)
files_args q =
    (codes "output_columns", codes "torrent._key,path") ∷ match_args (codes "path") q
    ++ page_args q.offset q.limit

-- The torrents of the hashes that the file search found.
unfoldable pub parents_args : List Text → SearchQuery → List (Text × Text)
parents_args hashes q =
    (codes "output_columns", output_columns)
    ∷ (
      codes "filter",
      join (codes " && ") (
          (codes "in_values(_key, " ++ join (codes ", ") (map quote_token hashes) ++ codes ")")
          ∷ part_of (build_filter_expr q)),
    )
    ∷ (codes "limit", to_string (pos (length hashes)))
    ∷ []

abbrev pub from_torrents : List (Text × Text) → Text
from_torrents args = codes "select --table Torrents" ++ render args

abbrev pub from_files : List (Text × Text) → Text
from_files args = codes "select --table Files" ++ render args

-- A select of one column of the row with a hash.
unfoldable pub select_of : Text → Text → Text
select_of column hash = from_torrents (
    (codes "output_columns", column)
    ∷ (codes "filter", key_filter hash)
    ∷ (codes "limit", codes "1")
    ∷ [])
