-- ===== src/Index/Groonga/Client.antt =====
-- native/index/groonga_index.cpp: the commands that reach the Groonga library, which is a parameter with
-- the rest of what is called on JSON values, and the schema.
use rats_search_tui.Base.{
  ℤ, Bool, true, false, not, ◌||◌, List, [], ◌∷◌, ◌++◌, Option, none, some, Text, codes, FloatOps,
  if◌then◌else◌,
}
use rats_search_tui.Domain.Json.{JsonOps}

-- A receive that succeeded: its bytes, and whether more follow.
pub record Chunk : Type 0 where
  pub bytes : Text
  pub more : Bool

-- What a command brings: whether it was sent well, and the receives, none for one that fails.
pub record Reply : Type 0 where
  pub sent : Bool
  pub receives : List (Option Chunk)

-- `run` is grn_ctx_send with the calls of grn_ctx_recv behind it, and `exists` is grn_ctx_get. A getter
-- is none where get throws, and `parse` where the text is discarded.
pub record GroongaOps (json : JsonOps) (float : FloatOps) : Type 1 where
  pub State : Type 0
  pub run : Text → State → Reply × State
  pub exists : Text → State → Bool
  pub is_null : json.Json → Bool
  pub as_string : json.Json → Option Text
  pub as_int64 : json.Json → Option ℤ
  pub as_int : json.Json → Option ℤ
  pub as_double : json.Json → Option float.Double
  pub of_double : float.Double → json.Json
  pub dump : json.Json → Text
  pub parse : Text → Option json.Json
  pub erase : json.Json → Text → json.Json
  pub members : json.Json → List (Text × json.Json)
  pub llround : float.Double → ℤ
  -- What a read of the rows of a reply finds when the reply has been destroyed.
  pub freed : List json.Json → List json.Json

-- The receives up to the first one behind which no more follow.
unfoldable pub received : List (Option Chunk) → Option Text
received [] = none
received (none ∷ rest) = none
received (some c ∷ rest) =
    let later = received rest in
    if c.more then elim later [ none ↦ none | some t ↦ some (c.bytes ++ t) ] else some c.bytes

-- The tables and columns, each with the command that makes it.
abbrev pub core_objects : List (Text × Text)
core_objects =
    (codes "Torrents", codes "table_create Torrents TABLE_HASH_KEY ShortText")
    ∷ (codes "Torrents.name", codes "column_create Torrents name COLUMN_SCALAR ShortText")
    ∷ (codes "Torrents.size", codes "column_create Torrents size COLUMN_SCALAR UInt64")
    ∷ (codes "Torrents.files", codes "column_create Torrents files COLUMN_SCALAR UInt32")
    ∷ (
      codes "Torrents.piece_length",
      codes "column_create Torrents piece_length COLUMN_SCALAR UInt32",
    )
    ∷ (codes "Torrents.added", codes "column_create Torrents added COLUMN_SCALAR Time")
    ∷ (
      codes "Torrents.content_type",
      codes "column_create Torrents content_type COLUMN_SCALAR UInt8",
    )
    ∷ (
      codes "Torrents.content_category",
      codes "column_create Torrents content_category COLUMN_SCALAR UInt8",
    )
    ∷ (codes "Torrents.seeders", codes "column_create Torrents seeders COLUMN_SCALAR UInt32")
    ∷ (codes "Torrents.leechers", codes "column_create Torrents leechers COLUMN_SCALAR UInt32")
    ∷ (codes "Torrents.completed", codes "column_create Torrents completed COLUMN_SCALAR UInt32")
    ∷ (codes "Torrents.good", codes "column_create Torrents good COLUMN_SCALAR UInt32")
    ∷ (codes "Torrents.bad", codes "column_create Torrents bad COLUMN_SCALAR UInt32")
    ∷ (
      codes "Torrents.trackers_checked",
      codes "column_create Torrents trackers_checked COLUMN_SCALAR Time",
    )
    ∷ (codes "Torrents.info", codes "column_create Torrents info COLUMN_SCALAR Text")
    ∷ (codes "Torrents.trackers", codes "column_create Torrents trackers COLUMN_VECTOR ShortText")
    ∷ (
      codes "Terms",
      codes "table_create Terms TABLE_PAT_KEY ShortText --default_tokenizer TokenBigram "
          ++ codes "--normalizer NormalizerAuto",
    )
    ∷ (
      codes "Terms.idx_name",
      codes "column_create Terms idx_name COLUMN_INDEX|WITH_POSITION Torrents name",
    )
    ∷ []

abbrev pub file_objects : List (Text × Text)
file_objects =
    (codes "Files", codes "table_create Files TABLE_NO_KEY")
    ∷ (codes "Files.torrent", codes "column_create Files torrent COLUMN_SCALAR Torrents")
    ∷ (codes "Files.path", codes "column_create Files path COLUMN_SCALAR ShortText")
    ∷ (codes "Files.size", codes "column_create Files size COLUMN_SCALAR UInt64")
    ∷ (
      codes "Terms.idx_path",
      codes "column_create Terms idx_path COLUMN_INDEX|WITH_POSITION Files path",
    )
    ∷ []

module _ (json : JsonOps) (float : FloatOps) (groonga : GroongaOps json float) where
  open json use {Json, null as null_value, is_boolean, get_bool}
  open groonga use {State, run, exists, is_null, parse}

  -- The value that a reply stands for: null for an error of any kind.
  unfoldable pub reply_value : Reply → Json
  reply_value r = elim (received r.receives) [
    | none ↦ null_value
    | some t ↦ if not r.sent then null_value else elim (parse t) [ none ↦ null_value | some v ↦ v ]
  ]

  unfoldable pub send : Text → State → Json × State
  send command s = let (r, s1) = run command s in (reply_value r, s1)

  unfoldable pub command_ok : Json → Bool
  command_ok v = if is_null v then false else not (is_boolean v) || get_bool v

  unfoldable pub ensure_object : Text × Text → State → Bool × State
  ensure_object (name, ddl) s =
      if exists name s then (true, s) else let (v, s1) = send ddl s in (command_ok v, s1)

  -- Makes the objects that are not there, up to the first that cannot be made.
  unfoldable pub ensure_objects : List (Text × Text) → State → Bool × State
  ensure_objects [] s = (true, s)
  ensure_objects (o ∷ rest) s =
      let (ok, s1) = ensure_object o s in
      let later = ensure_objects rest s1 in if ok then later else (false, s1)

  unfoldable pub ensure_schema : Bool → State → Bool × State
  ensure_schema file_index s =
      let (ok, s1) = ensure_objects core_objects s in
      if ok then if file_index then ensure_objects file_objects s1 else (true, s1) else (false, s1)
