-- ===== src/Engine/Indexer.antt =====
-- native/engine/indexer.h and indexer.cpp: discovered torrents are classified, filtered and
-- inserted, and an index over its cap is pruned in batches. The classifier, the filter's reason
-- and the index are arguments; `prunes` is how many batches the engine loop holds, and the log is
-- what the indexed callback was called with, newest first.
pub mod Pruning
pub mod Accepted
mod Tests
use rats_search_tui.Base.{
  ℕ, zero, suc, ◌+◌, ◌/◌, ℤ, pos, negsuc, ◌+ℤ◌, ◌-ℤ◌, wrap64, ltb, ltb_ℤ, leb_ℤ, Bool, true, false,
  not, ◌&&◌, ◌||◌, List, [], ◌∷◌, Text, null, if◌then◌else◌,
}
use rats_search_tui.Domain.Torrent.{Torrent}
use rats_search_tui.Index.{SearchIndex, lookup_query}

pub record Indexer (I : Type 0) : Type 0 where
  pub index : I
  -- indexMaxTorrents_, an int
  pub max_torrents : ℤ
  pub record_count : ℤ
  pub prune_in_flight : Bool
  pub prunes : ℕ
  pub indexed : List (Text × Text)

abbrev pub batch_cap : ℕ
batch_cap = 500

-- std::max<int64_t>(indexMaxTorrents_ / 50, 100), the division being that of a positive number
abbrev pub slack : ℤ → ℤ
slack (pos n) = if ltb_ℤ (pos (n / 50)) (pos 100) then pos 100 else pos (n / 50)
slack (negsuc n) = pos 100

-- How many records a batch may take.
unfoldable pub batch_limit : ℤ → ℕ
batch_limit (pos over) = if ltb_ℤ (pos over) (pos batch_cap) then over else batch_cap
batch_limit (negsuc over) = 0

module _ {J : Type 0} (index : SearchIndex J) where
  unfoldable pub is_known_hash : Text → Indexer index.State → Bool
  is_known_hash hash x = not (null (index.search_names (lookup_query hash) x.index))

  unfoldable pub maybe_prune : Indexer index.State → Indexer index.State
  maybe_prune x =
      if leb_ℤ x.max_torrents (pos 0) || x.prune_in_flight
      then x
      else if leb_ℤ x.record_count (wrap64 (x.max_torrents +ℤ slack x.max_torrents))
      then x
      else record x { prune_in_flight = true; prunes = suc x.prunes }

  unfoldable pub remove_all : List Text → index.State → ℕ × index.State
  remove_all [] s = (0, s)
  remove_all (hash ∷ hashes) s =
      let (ok, s') = index.remove hash s in
      let (n, s'') = remove_all hashes s' in (if ok then suc n else n, s'')

  run_batch : ℕ → Indexer index.State → Indexer index.State
  run_batch zero x = record x { prune_in_flight = false }
  run_batch (suc n) x =
      let (removed, s) = remove_all (index.lowest_value_hashes (pos (suc n)) x.index) x.index in
      let count = wrap64 (x.record_count -ℤ pos removed) in
      let x' : Indexer index.State = record x { index = s; record_count = count } in
      if ltb_ℤ x.max_torrents count && ltb 0 removed
      then record x' { prunes = suc x'.prunes }
      else record x' { prune_in_flight = false }

  -- pruneBatch, which the engine loop runs
  unfoldable pub prune_batch : Indexer index.State → Indexer index.State
  unfolding run_batch
  prune_batch x = run_batch (batch_limit (wrap64 (x.record_count -ℤ x.max_torrents))) x

  -- The result, and the object.
  unfoldable pub handle_discovered :
      (Torrent J → Torrent J)
      → (Torrent J → Text)
      → Torrent J
      → Indexer index.State
      → Bool × Indexer index.State
  handle_discovered classify rejection_reason discovered x =
      let t = classify discovered in
      if not (null (rejection_reason t))
      then (false, x)
      else let existed = is_known_hash t.hash x in
        let (ok, s) = index.upsert t x.index in
        let x' : Indexer index.State = record x { index = s } in
        if not ok
        then (false, x')
        else if existed
        then (false, x')
        else let x'' =
            maybe_prune (record x' { record_count = wrap64 (x'.record_count +ℤ pos 1) }) in
          (true, record x'' { indexed = (t.hash, t.name) ∷ x''.indexed })
