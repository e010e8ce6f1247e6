-- ===== src/Engine/Indexer/Pruning.antt =====
-- The pruning of native/engine/indexer.cpp: one batch in flight, and never below the cap.
use rats_search_tui.Base.{
  ℕ, zero, suc, ◌+◌, ◌-◌, ◌^◌, ◌≤◌, ◌<◌, pos, ◌+ℤ◌, ◌-ℤ◌, wrap64, ◌≡◌, refl, ◌⊎◌, true, false, List,
  [], ◌∷◌, Text, length, arith,
}
use rats_search_tui.Domain.Torrent.{Torrent}
use rats_search_tui.Index.{SearchIndex}
use rats_search_tui.Engine.Indexer.{
  Indexer, maybe_prune, remove_all, batch_limit, run_batch, prune_batch, handle_discovered,
}

-- A batch is scheduled exactly while the flag is set, and then it is the only one.
abbrev pub HasOneBatch : {I : Type 0} → Indexer I → Type 0
HasOneBatch x =
    ((x.prune_in_flight ≡ true) × (x.prunes ≡ 1)) ⊎ ((x.prune_in_flight ≡ false) × (x.prunes ≡ 0))

-- What can happen: a discovered torrent, with what classifier and filter make of it, or the engine
-- loop running a scheduled batch.
pub data Event (J : Type 0) : Type 0 where
  discovers : (Torrent J → Torrent J) → (Torrent J → Text) → Torrent J → Event J
  prunes_batch : Event J

module _ {J : Type 0} (index : SearchIndex J) where
  unfoldable pub run_scheduled : ℕ → Indexer index.State → Indexer index.State
  run_scheduled zero x = x
  run_scheduled (suc n) x = prune_batch index (record x { prunes = n })

  unfoldable pub handle : Indexer index.State → Event J → Indexer index.State
  handle x (discovers classify reason t) = (handle_discovered index classify reason t x).1
  handle x prunes_batch = run_scheduled x.prunes x

  unfoldable pub run : Indexer index.State → List (Event J) → Indexer index.State
  run x [] = x
  run x (e ∷ es) = run (handle x e) es

  maybe_prune-HasOneBatch :
      (x : Indexer index.State) → HasOneBatch x → HasOneBatch (maybe_prune index x)
  unfolding maybe_prune
  maybe_prune-HasOneBatch x h = ground arith

  discovered-HasOneBatch :
      (classify : Torrent J → Torrent J) (reason : Torrent J → Text) (t : Torrent J)
      (x : Indexer index.State)
      → HasOneBatch x
      → HasOneBatch (handle_discovered index classify reason t x).1
  unfolding handle_discovered
  discovered-HasOneBatch classify reason t x h = ground (
    arith,
    maybe_prune-HasOneBatch (record x {
      index = (index.upsert (classify t) x.index).1;
      record_count = wrap64 (x.record_count +ℤ pos 1);
    }),
  )

  run_batch-HasOneBatch :
      (limit : ℕ) (x : Indexer index.State)
      → x.prune_in_flight ≡ true
      → x.prunes ≡ 0
      → HasOneBatch (run_batch index limit x)
  unfolding run_batch
  run_batch-HasOneBatch zero x f n = ground arith
  run_batch-HasOneBatch (suc limit) x f n = ground arith

  scheduled-HasOneBatch :
      (n : ℕ) (x : Indexer index.State)
      → x.prunes ≡ n
      → HasOneBatch x
      → HasOneBatch (run_scheduled n x)
  unfolding run_scheduled prune_batch
  scheduled-HasOneBatch zero x e h = h
  scheduled-HasOneBatch (suc n) x e h = run_batch-HasOneBatch _ _ (ground arith) (ground arith)

  -- After any discoveries and batches, in any order, a batch is scheduled exactly while the flag
  -- says so, and there is never a second one, if that holds at the start.
  pub run-HasOneBatch :
      (es : List (Event J)) (x : Indexer index.State) → HasOneBatch x → HasOneBatch (run x es)
  unfolding run handle
  run-HasOneBatch [] x h = h
  run-HasOneBatch (discovers classify reason t ∷ es) x h =
      run-HasOneBatch es _ (discovered-HasOneBatch classify reason t x h)
  run-HasOneBatch (prunes_batch ∷ es) x h =
      run-HasOneBatch es _ (scheduled-HasOneBatch x.prunes x refl h)

  remove_all-le :
      (hashes : List Text) (s : index.State) → (remove_all index hashes s).0 ≤ length hashes
  unfolding remove_all
  remove_all-le [] s = omega arith
  remove_all-le (hash ∷ hashes) s = ground (arith, remove_all-le hashes (index.remove hash s).1)

  -- The search engine returns no more hashes than it is asked for.
  abbrev pub KeepsLimit : Type 0
  KeepsLimit = (n : ℕ) (s : index.State) → length (index.lowest_value_hashes (pos n) s) ≤ n

  wrap64_sub : (c r : ℕ) → r ≤ c → c < 2 ^ 63 → wrap64 (pos c -ℤ pos r) ≡ pos (c - r)
  unfolding wrap64 ◌-ℤ◌
  wrap64_sub c r h s = ground arith

  run_batch_cap :
      (limit count cap : ℕ) (x : Indexer index.State)
      → KeepsLimit
      → x.record_count ≡ pos count
      → x.max_torrents ≡ pos cap
      → count < 2 ^ 63
      → cap + limit ≤ count
      → (left : ℕ) × ((run_batch index limit x).record_count ≡ pos left)
        × (cap ≤ left)
        × (((run_batch index limit x).prunes ≡ suc x.prunes) → (left < count) × (cap < left))
  unfolding run_batch
  run_batch_cap zero count cap x keeps c m small h = (count, c, omega arith, λ e. ground arith)
  run_batch_cap (suc limit) count cap x keeps c m small h =
      let hashes = index.lowest_value_hashes (pos (suc limit)) x.index in
      let removed = (remove_all index hashes x.index).0 in
      let few : removed ≤ suc limit =
        omega (arith, remove_all-le hashes x.index, keeps (suc limit) x.index) in
      let left : wrap64 (x.record_count -ℤ pos removed) ≡ pos (count - removed) =
        rw c (wrap64_sub count removed (omega arith) small) in
      (count - removed, ground (arith, left), omega (arith, few), λ e. ground (arith, left, few))

  -- With a cap and a count in the range of their types, and an index that returns no more hashes
  -- than it is asked for: a batch of an index over its cap leaves at least as many records as the
  -- cap allows, and if it schedules another batch it has removed a record and is still over.
  pub prune_batch_cap :
      (count cap : ℕ) (x : Indexer index.State)
      → KeepsLimit
      → x.record_count ≡ pos count
      → x.max_torrents ≡ pos cap
      → count < 2 ^ 63
      → cap ≤ count
      → (left : ℕ) × ((prune_batch index x).record_count ≡ pos left)
        × (cap ≤ left)
        × (((prune_batch index x).prunes ≡ suc x.prunes) → (left < count) × (cap < left))
  unfolding prune_batch
  prune_batch_cap count cap x keeps c m small h =
      let over : wrap64 (x.record_count -ℤ x.max_torrents) ≡ pos (count - cap) =
        rw (c, m) (wrap64_sub count cap h small) in
      run_batch_cap (batch_limit (wrap64 (x.record_count -ℤ x.max_torrents))) count cap x keeps c m
        small (rw over (unfold batch_limit in ground arith))
