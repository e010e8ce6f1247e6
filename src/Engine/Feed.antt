-- ===== src/Engine/Feed.antt =====
-- native/engine/feed.h and feed.cpp: the ranked feed of torrents that were voted on. Doubles,
-- std::sort, the JSON library and the index are parameters, the clock an argument; the file is
-- the JSON last written, and whether a write succeeds an argument. The list's last element is the
-- vector's back.
pub mod Invariant
pub mod Histories
use mathlib.Core.List.{reverse}
use rats_search_tui.Base.{
  ℕ, zero, suc, ◌+◌, ◌*◌, ℤ, pos, ◌+ℤ◌, ◌-ℤ◌, wrap32, wrap64, eq_ℤ, ltb_ℤ, ltb, leb, Bool, true,
  false, not, ◌&&◌, ◌||◌, List, [], ◌∷◌, ◌++◌, map, Option, none, some, Text, codes, eq_text,
  length, take, drop, null, FloatOps, ◌==◌, if◌then◌else◌, min,
}
use rats_search_tui.Domain.Content.{ContentType, ContentCategory, bad, xxx, eq_type, eq_category}
use rats_search_tui.Domain.Torrent.{Torrent, is_valid}
use rats_search_tui.Domain.Json.{JsonOps}
use rats_search_tui.Domain.Codec.{ToJsonOptions, torrent_to_json, torrent_from_json}
use rats_search_tui.Index.{SearchIndex, lookup_query}

pub record FeedItem (J : Type 0) : Type 0 where
  pub torrent : Torrent J
  pub feed_date : ℤ

pub record Feed (J : Type 0) : Type 0 where
  pub feed : List (FeedItem J)
  pub index_by_hash : List (Text × ℕ)
  pub feed_date : ℤ
  pub dirty : Bool
  pub flush_scheduled : Bool
  pub revision : ℕ
  -- How many flushes the engine loop holds, each with its delay.
  pub pending : List ℕ
  pub file : Option J

abbrev pub max_size : ℕ
max_size = 1000

abbrev pub flush_interval_ms : ℕ
flush_interval_ms = 2000

unfoldable pub should_block : {J : Type 0} → Torrent J → Bool
should_block t = eq_type t.content_type bad || eq_category t.content_category xxx

unfoldable pub find_index : Text → List (Text × ℕ) → Option ℕ
find_index hash [] = none
find_index hash ((h, i) ∷ m) = if eq_text h hash then some i else find_index hash m

module _ {J : Type 0} where
  index_from : ℕ → List (FeedItem J) → List (Text × ℕ) → List (Text × ℕ)
  index_from i [] m = m
  index_from i (item ∷ items) m = index_from (suc i) items ((item.torrent.hash, i) ∷ m)

  -- rebuildIndex; the entry of a hash is the first of the list, the one assigned last.
  unfoldable pub rebuild_index : List (FeedItem J) → List (Text × ℕ)
  unfolding index_from
  rebuild_index items = index_from 0 items []

  unfoldable pub refresh_at : ℕ → Torrent J → List (FeedItem J) → List (FeedItem J)
  refresh_at i t [] = []
  refresh_at zero t (item ∷ items) =
      record item {
        torrent = record item.torrent { good = t.good; bad = t.bad; seeders = t.seeders };
      }
      ∷ items
  refresh_at (suc i) t (item ∷ items) = item ∷ refresh_at i t items

  -- markDirty
  unfoldable pub mark_dirty : Feed J → Feed J
  mark_dirty f = if f.flush_scheduled then record f { dirty = true } else record f {
    dirty = true;
    flush_scheduled = true;
    pending = flush_interval_ms ∷ f.pending;
  }

  -- The vector of the elements from begin() + i up to begin() + j.
  slice : ℤ → ℤ → List (FeedItem J) → List (FeedItem J)
  slice (pos i) (pos j) items = drop i (take j items)
  slice _ _ items = []

  unfoldable pub get_feed : ℤ → ℤ → Feed J → List (FeedItem J)
  unfolding slice
  get_feed index limit f =
      let size = pos (length f.feed) in
      if ltb_ℤ index (pos 0) || not (ltb_ℤ index size)
      then []
      else let wanted = wrap32 (index +ℤ limit) in
        let end = if ltb_ℤ size wanted then size else wanted in slice index end f.feed

module _ (float : FloatOps) where
  open float use {Double, of_int, lit, add, sub, mul, div, sqrt, less_equal}

  unfoldable pub wilson_score : ℤ → ℤ → Double
  wilson_score positive negative =
      let n = wrap32 (positive +ℤ negative) in
      if eq_ℤ n (pos 0)
      then lit 0 1
      else let m = of_int n in
        let z = lit 196 2 in
        let phat = div (of_int positive) m in
        let denominator = add (of_int (pos 1)) (div (mul z z) m) in
        let spread = sqrt (
          div
            (add (mul phat (sub (of_int (pos 1)) phat))
              (div (mul z z) (of_int (wrap32 (n +ℤ n +ℤ n +ℤ n)))))
            m) in
        let numerator = sub (add phat (div (mul z z) (of_int (wrap32 (n +ℤ n))))) (mul z spread) in
        div numerator denominator

  abbrev pub max_time : ℤ
  max_time = pos 600000

  unfoldable pub calculate_score : {J : Type 0} → ℤ → FeedItem J → Double
  calculate_score now item =
      let good = item.torrent.good in
      let bad = item.torrent.bad in
      let age = wrap64 (now -ℤ item.feed_date) in
      let capped = if ltb_ℤ max_time age then max_time else age in
      let relative = div (of_int (wrap64 (max_time -ℤ capped))) (of_int max_time) in
      add
        (sub (add (mul relative relative) (mul (mul (of_int good) (lit 15 1)) relative))
          (mul (mul (of_int bad) (lit 6 1)) relative))
        (wilson_score good bad)

-- std::sort of the scored items, by falling score.
abbrev pub Sorter : FloatOps → Type 0 → Type 0
Sorter float J = List (float.Double × FeedItem J) → List (float.Double × FeedItem J)

module _ (json : JsonOps) (float : FloatOps) (sort : Sorter float json.Json) where
  open json use {Json, array, of_int, is_object, is_array, set, push_back, elements, value_int64}

  unfoldable pub item_to_json : FeedItem Json → Json
  item_to_json item =
      set
        (torrent_to_json json item.torrent (record { include_files = false; include_info = false }))
        (codes "feedDate") (of_int item.feed_date)

  unfoldable pub item_from_json : ℤ → Json → FeedItem Json
  item_from_json now_ms obj = record {
    torrent = torrent_from_json json now_ms obj;
    feed_date = value_int64 obj (codes "feedDate") (pos 0);
  }

  unfoldable pub ranked : ℤ → List (FeedItem Json) → List (FeedItem Json)
  ranked now items =
      map (λ (score, item). item)
        (sort (map (λ item. (calculate_score float now item, item)) items))

  unfoldable pub reorder : ℤ → Feed Json → Feed Json
  reorder now f =
      let items = ranked now f.feed in
      record f { feed = items; index_by_hash = rebuild_index items }

  -- The while loop of add, from the back of the vector.
  unfoldable pub make_room : ℤ → FeedItem Json → List (FeedItem Json) → List (FeedItem Json)
  make_room now item [] = []
  make_room now item (back ∷ items) =
      let rest = make_room now item items in
      if not (leb max_size (length (back ∷ items)))
      then back ∷ items
      else if float.less_equal (calculate_score float now back) (float.lit 0 0)
      then rest
      else item ∷ items

  unfoldable pub insert_item : ℤ → FeedItem Json → Feed Json → Feed Json
  insert_item now item f =
      if leb max_size (length f.feed)
      then (let f' = reorder now f in
          let roomy = reverse (make_room now item (reverse f'.feed)) in
          if ltb (length roomy) max_size
          then record f' { feed = roomy ++ item ∷ [] }
          else record f' { feed = roomy })
      else record f { feed = f.feed ++ item ∷ [] }

  unfoldable pub add_item : ℤ → FeedItem Json → Feed Json → Feed Json
  add_item now item f =
      if should_block item.torrent
      then f
      else let f' : Feed Json = elim (find_index item.torrent.hash f.index_by_hash) [
        | some i ↦ record f { feed = refresh_at i item.torrent f.feed }
        | none ↦
            insert_item now
              (if eq_ℤ item.feed_date (pos 0) then record item { feed_date = now } else item) f
      ] in
        let sorted = mark_dirty (record (reorder now f') { feed_date = now }) in
        record sorted { revision = suc sorted.revision }

  unfoldable pub add_by_hash :
      (index : SearchIndex Json) → index.State → ℤ → Text → Feed Json → Feed Json
  add_by_hash index state now hash f =
      if not (length hash == 40) then f else elim (index.search_names (lookup_query hash) state) [
        | [] ↦ f
        | hit ∷ _ ↦
            if not (is_valid hit.torrent)
            then f
            else if should_block hit.torrent
            then f
            else add_item now (record { torrent = hit.torrent; feed_date = pos 0 }) f
      ]

  -- The loop of load and fromJsonArray; `n` items were kept so far.
  unfoldable pub keep_items : ℤ → ℕ → List Json → List (FeedItem Json)
  keep_items now_ms n [] = []
  keep_items now_ms n (v ∷ vs) =
      let item = item_from_json now_ms v in
      let skipped = keep_items now_ms n vs in
      let more = keep_items now_ms (suc n) vs in
      if not (is_object v)
      then skipped
      else if null item.torrent.hash
      then skipped
      else if should_block item.torrent
      then skipped
      else if leb max_size (suc n)
      then item ∷ []
      else item ∷ more

  latest : ℤ → List (FeedItem Json) → ℤ
  latest d [] = d
  latest d (item ∷ items) = latest (if ltb_ℤ d item.feed_date then item.feed_date else d) items

  -- `stored` is the parsed file, or none where there is no file, it is empty or it does not parse.
  unfoldable pub load : ℤ → ℤ → Option Json → Feed Json → Feed Json
  unfolding latest
  load now now_ms stored f =
      let vs : List Json = elim stored [
        | none ↦ []
        | some v ↦ if is_array v then elements v else []
      ] in
      let f' = reorder now (record f { feed = keep_items now_ms 0 vs }) in
      record f' { feed_date = latest (pos 0) f'.feed; revision = suc f'.revision }

  unfoldable pub from_json_array : ℤ → ℤ → Json → ℤ → Feed Json → Feed Json
  from_json_array now now_ms arr remote_date f =
      let items = if is_array arr then keep_items now_ms 0 (elements arr) else [] in
      let f' = reorder now (record f { feed = items }) in
      let dated =
        mark_dirty
          (record f' { feed_date = if ltb_ℤ (pos 0) remote_date then remote_date else now }) in
      record dated { revision = suc dated.revision }

  items_to_json : Json → List (FeedItem Json) → Json
  items_to_json arr [] = arr
  items_to_json arr (item ∷ items) = items_to_json (push_back arr (item_to_json item)) items

  unfoldable pub to_json_array : ℤ → ℤ → Feed Json → Json
  unfolding items_to_json
  to_json_array index limit f = items_to_json array (get_feed index limit f)

  -- persistNow, save and the flush that the engine loop runs; `written` says whether the file was.
  unfoldable pub persist_now : Bool → Feed Json → Bool × Feed Json
  unfolding items_to_json
  persist_now written f =
      let clean : Feed Json = record f { dirty = false } in
      if written
      then (true, record clean { file = some (items_to_json array f.feed) })
      else (false, clean)

  unfoldable pub save : Bool → Feed Json → Bool × Feed Json
  save written f = if not f.dirty then (true, f) else persist_now written f

  unfoldable pub scheduled_flush : Bool → Feed Json → Feed Json
  scheduled_flush written f =
      let f' : Feed Json = record f { flush_scheduled = false } in
      if f'.dirty then (persist_now written f').1 else f'
