-- ===== src/Index/Groonga/Stored.antt =====
-- What a row of native/index/groonga_index.cpp has for a torrent, and how its columns are read.
use rats_search_tui.Base.{
  ℤ, pos, ◌≤ℤ◌, ◌^◌, eq_ℤ, ◌≡◌, refl, ap, true, false, not, ◌&&◌, List, [], ◌∷◌, none, some, Text,
  codes, eq_text, to_lower, null, All, FloatOps, if◌then◌else◌,
}
use rats_search_tui.Domain.Json.{JsonOps, IsInt32, IsInt64}
use rats_search_tui.Domain.Codec.{default_torrent}
use rats_search_tui.Domain.Content.{type_to_id, category_to_id}
use rats_search_tui.Domain.Content.Names.{type_from-to_id, category_from-to_id}
use rats_search_tui.Domain.Torrent.{Torrent}
use rats_search_tui.Index.Groonga.Client.{GroongaOps}
use rats_search_tui.Index.Groonga.Query.{output_columns, join}
use rats_search_tui.Index.Groonga.Rows.{milliseconds, set_info, set_column, set_columns}
use rats_search_tui.Index.Groonga.Writes.{seconds, row_members}

abbrev pub output_names : List Text
output_names =
    codes "_key"
    ∷ codes "name"
    ∷ codes "size"
    ∷ codes "files"
    ∷ codes "piece_length"
    ∷ codes "added"
    ∷ codes "content_type"
    ∷ codes "content_category"
    ∷ codes "seeders"
    ∷ codes "leechers"
    ∷ codes "completed"
    ∷ codes "good"
    ∷ codes "bad"
    ∷ codes "trackers_checked"
    ∷ codes "info"
    ∷ []

names_of_columns : join (codes ",") output_names ≡ output_columns
unfolding join
names_of_columns = refl

abbrev pub member_or : {J : Type 0} → Text → J → List (Text × J) → J
member_or key d [] = d
member_or key d ((k, v) ∷ rest) = if eq_text k key then v else member_or key d rest

module _ (json : JsonOps) (float : FloatOps) (groonga : GroongaOps json float) where
  open json use {Json, of_string, of_int, is_object, find, empty}
  open float use {Double, div, lit, less}
  open groonga use {as_string, as_int64, as_int, as_double, of_double, dump, parse, erase}

  abbrev pub in_seconds : ℤ → Double
  in_seconds n = div (float.of_int n) (lit 10000 1)

  -- What the program relies on: values are read as they were made, and a member can be taken out.
  -- `default` is what a column has before it is loaded.
  pub record RowLaws (default : Text → Json) : Type 0 where
    pub strings : (s : Text) → as_string (of_string s) ≡ some s
    pub int64s : (n : ℤ) → IsInt64 n → as_int64 (of_int n) ≡ some n
    pub ints : (n : ℤ) → IsInt32 n → as_int (of_int n) ≡ some n
    pub doubles : (x : Double) → as_double (of_double x) ≡ some x
    pub erase_set : (o v : Json) (k : Text) → erase (json.set o k v) k ≡ erase o k
    pub erase_absent : (o : Json) (k : Text) → find o k ≡ none → erase o k ≡ o
    pub parse_dump : (v : Json) → parse (dump v) ≡ some v
    pub dump_filled : (v : Json) → null (dump v) ≡ false
    pub set_filled : (o : Json) (k : Text) (v : Json) → empty (json.set o k v) ≡ false
    -- A time in milliseconds up to 2 ^ 50 is not lost by a division and a multiplication by 1000.
    pub times :
        (n : ℤ)
        → pos 0 ≤ℤ n
        → n ≤ℤ pos (2 ^ 50)
        → milliseconds json float groonga (in_seconds n) ≡ n
    pub later_times :
        (n : ℤ) → pos 1 ≤ℤ n → n ≤ℤ pos (2 ^ 50) → less (lit 0 0) (in_seconds n) ≡ true
    pub no_info : as_string (default (codes "info")) ≡ some []
    pub no_time : Double
    pub no_time_read : as_double (default (codes "trackers_checked")) ≡ some no_time
    pub no_time_sign : less (lit 0 0) no_time ≡ false

  -- A torrent that a row can hold: a lower-case hash, numbers in the range of their C++ types, times
  -- up to 2 ^ 50 milliseconds, a count that is not zero where there are files, and information without
  -- a list of files of its own, if it is an object.
  pub record IsStorable (t : Torrent Json) : Type 0 where
    pub lower : to_lower t.hash ≡ t.hash
    pub size : IsInt64 t.size
    pub files : IsInt32 t.files
    pub counted : (eq_ℤ t.files (pos 0) && not (null t.file_list)) ≡ false
    pub piece_length : IsInt32 t.piece_length
    pub added : (pos 0 ≤ℤ t.added) × (t.added ≤ℤ pos (2 ^ 50))
    pub type_id : IsInt32 (type_to_id t.content_type)
    pub category_id : IsInt32 (category_to_id t.content_category)
    pub seeders : IsInt32 t.seeders
    pub leechers : IsInt32 t.leechers
    pub completed : IsInt32 t.completed
    pub good : IsInt32 t.good
    pub bad : IsInt32 t.bad
    pub checked : (pos 0 ≤ℤ t.trackers_checked) × (t.trackers_checked ≤ℤ pos (2 ^ 50))
    pub unlisted : is_object t.info ≡ true → find t.info (codes "filesList") ≡ none
    pub file_sizes : All (λ f. IsInt64 f.size) t.file_list

  abbrev pub object_of : Json → Json
  object_of info = if is_object info then info else json.object

  -- What a row keeps of the information: none where there is nothing to write, and an empty object in
  -- place of a value that is no object where there are files.
  abbrev pub kept_info : Torrent Json → Json
  kept_info t = if null t.file_list && empty (object_of t.info) then json.null else object_of t.info

  abbrev pub time_of : Double → ℤ
  time_of x = if less (lit 0 0) x then milliseconds json float groonga x else pos 0

  -- A torrent but for its information and its files.
  abbrev pub bare : Torrent Json → ℤ → Torrent Json
  bare t time = record t { trackers_checked = time; info = json.null; file_list = [] }

  -- A row in the order of the columns.
  abbrev pub row_of : Torrent Json → Json → Json → List Json
  row_of t checked info =
      of_string (to_lower t.hash)
      ∷ of_string t.name
      ∷ of_int t.size
      ∷ of_int t.files
      ∷ of_int t.piece_length
      ∷ seconds json float groonga t.added
      ∷ of_int (type_to_id t.content_type)
      ∷ of_int (category_to_id t.content_category)
      ∷ of_int t.seeders
      ∷ of_int t.leechers
      ∷ of_int t.completed
      ∷ of_int t.good
      ∷ of_int t.bad
      ∷ checked
      ∷ info
      ∷ []

  -- What a row has for a column: what was loaded, or the column's default.
  abbrev pub stored : (Text → Json) → Torrent Json → Text → Json
  stored default t key = member_or key (default key) (row_members json float groonga t)

  module _ (default : Text → Json) (laws : RowLaws default) where
    pub read_row :
        (t : Torrent Json)
        → IsStorable t
        → (checked info : Json) (x : Double) (s : Text) → as_double checked ≡ some x
        → as_string info ≡ some s
        → set_columns json float groonga output_names (row_of t checked info) (default_torrent json)
          ≡ some (set_info json float groonga (bare t (time_of x)) s)
    unfolding set_columns set_column default_torrent
    read_row t h checked info x s e f =
        rw
          (
            set_columns,
            set_column,
            laws.strings (to_lower t.hash),
            laws.strings t.name,
            laws.int64s t.size h.size,
            laws.ints t.files h.files,
            laws.ints t.piece_length h.piece_length,
            laws.doubles (in_seconds t.added),
            laws.ints (type_to_id t.content_type) h.type_id,
            laws.ints (category_to_id t.content_category) h.category_id,
            laws.ints t.seeders h.seeders,
            laws.ints t.leechers h.leechers,
            laws.ints t.completed h.completed,
            laws.ints t.good h.good,
            laws.ints t.bad h.bad,
            e,
            f,
          )
          (ap (λ (u : Torrent Json). some (set_info json float groonga u s))
            (λ i. record (bare t (time_of x)) {
              hash = h.lower i;
              added = laws.times t.added h.added.0 h.added.1 i;
              content_type = type_from-to_id t.content_type i;
              content_category = category_from-to_id t.content_category i;
            }))
