-- ===== src/Engine/Feed/Histories.antt =====
-- Histories of the feed of native/engine/feed.cpp.
use rats_search_tui.Base.{
  FloatOps, Permutes, ◌==◌, ℤ, pos, Bool, true, false, not, List, [], ◌∷◌, Option, Text, length,
  arith, if◌then◌else◌,
}
use rats_search_tui.Domain.Torrent.{SearchHit, is_valid}
use rats_search_tui.Domain.Json.{JsonOps}
use rats_search_tui.Index.{SearchIndex, lookup_query}
use rats_search_tui.Engine.Feed.{
  FeedItem, Feed, should_block, Sorter, add_item, add_by_hash, load, from_json_array,
}
use rats_search_tui.Engine.Feed.Invariant.{
  AreKept, add_item-AreKept, load-AreKept, from_json-AreKept,
}

-- What changes the items: a vote on a hash, with the state of the index, a load of the file, and a
-- peer's feed; each with the clock in seconds, and in milliseconds.
pub data Change (I J : Type 0) : Type 0 where
  voted : I → ℤ → Text → Change I J
  loaded : ℤ → ℤ → Option J → Change I J
  synced : ℤ → ℤ → J → ℤ → Change I J

module _ (json : JsonOps) (float : FloatOps) (sort : Sorter float json.Json)
    (index : SearchIndex json.Json) where
  unfoldable pub change : Feed json.Json → Change index.State json.Json → Feed json.Json
  change f (voted state now hash) = add_by_hash json float sort index state now hash f
  change f (loaded now now_ms stored) = load json float sort now now_ms stored f
  change f (synced now now_ms arr remote) = from_json_array json float sort now now_ms arr remote f

  unfoldable pub change_all : Feed json.Json → List (Change index.State json.Json) → Feed json.Json
  change_all f [] = f
  change_all f (c ∷ cs) = change_all (change f c) cs

  module _ (permutes : Permutes sort) where
    voted-AreKept :
        (now : ℤ) (f : Feed json.Json) (invalid : Bool) (hits : List (SearchHit json.Json))
        → AreKept f.feed
        → AreKept
            (if invalid then f else elim hits as (λ x. Feed json.Json) [
              | [] ↦ f
              | hit ∷ _ ↦
                  if not (is_valid hit.torrent)
                  then f
                  else if should_block hit.torrent
                  then f
                  else add_item json float sort now
                      (record { torrent = hit.torrent; feed_date = pos 0 })
                      f
            ]).feed
    voted-AreKept now f true hits h = h
    voted-AreKept now f false [] h = h
    voted-AreKept now f false (hit ∷ hits) h =
        let item : FeedItem json.Json = record { torrent = hit.torrent; feed_date = pos 0 } in
        ground (arith, add_item-AreKept json float sort permutes now item f h)

    change-AreKept :
        (f : Feed json.Json) (c : Change index.State json.Json)
        → AreKept f.feed
        → AreKept (change f c).feed
    unfolding change add_by_hash
    change-AreKept f (voted state now hash) h =
        voted-AreKept now f (not (length hash == 40)) (index.search_names (lookup_query hash) state)
          h
    change-AreKept f (loaded now now_ms stored) h =
        load-AreKept json float sort permutes now now_ms stored f
    change-AreKept f (synced now now_ms arr remote) h =
        from_json-AreKept json float sort permutes now now_ms arr remote f

    -- After any votes, loads and feeds of peers, whatever these hold, the feed has at most a
    -- thousand items and none that is bad or in the category xxx, if that holds at the start and
    -- the sort permutes.
    pub change_all-AreKept :
        (cs : List (Change index.State json.Json)) (f : Feed json.Json)
        → AreKept f.feed
        → AreKept (change_all f cs).feed
    unfolding change_all
    change_all-AreKept [] f h = h
    change_all-AreKept (c ∷ cs) f h = change_all-AreKept cs (change f c) (change-AreKept f c h)
