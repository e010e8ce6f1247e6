-- ===== src/Engine/Crawler/Fetches.antt =====
-- How many metadata fetches native/engine/crawler.cpp has in flight, and how much it remembers.
use rats_search_tui.Base.{
  All, ℕ, zero, suc, ◌-◌, ◌^◌, false, ◌≤◌, ◌<◌, ℤ, pos, negsuc, ◌+ℤ◌, wrap32, ◌≡◌, ◌≢◌, ◌/◌, refl,
  Bool, true, List, [], ◌∷◌, Option, none, some, Text, pick, length, length-drop, Shortens,
  pick-Shortens, arith,
}
use rats_search_tui.Engine.Crawler.{
  MetadataRequest, TorrentInfo, Task, ignore_toggle, process_queue, announce, metadata_received,
  Crawler, remember, start, stop, on_spider_walk, on_ignore_toggle, fetch_metadata, drain_queue,
  process_metadata_queue, on_announce, on_result, on_metadata_received, Event, starts, stops,
  announces, completes, fires, Surroundings, run_task, fire, complete, handle, run,
  max_recent_hashes, to_hex,
}

-- The counter is the number of fetches in flight, at most ten, and the set of hashes is bounded.
pub record Inv {J : Type 0} (c : Crawler J) : Type 0 where
  pub counted : c.active_fetches ≡ pos (length c.in_flight)
  pub capped : length c.in_flight ≤ 10
  pub bounded : length c.recent_hashes ≤ max_recent_hashes

-- What the invariant speaks of is unchanged.
same :
    {J : Type 0} {c d : Crawler J}
    → Inv c
    → c.active_fetches ≡ d.active_fetches
    → c.in_flight ≡ d.in_flight
    → c.recent_hashes ≡ d.recent_hashes
    → Inv d
same v a f h = ground arith

module _ {J : Type 0} where
  fetch_metadata-Inv :
      (r : MetadataRequest) (c : Crawler J)
      → length c.in_flight < 10
      → Inv c
      → Inv (fetch_metadata r c)
  unfolding fetch_metadata wrap32 ◌+ℤ◌
  fetch_metadata-Inv r c room v = ground arith

  drain_queue-Inv :
      (queue : List MetadataRequest) (c : Crawler J) → Inv c → Inv (drain_queue queue c)
  unfolding drain_queue
  drain_queue-Inv [] c v = same v refl refl refl
  drain_queue-Inv (r ∷ queue) c v =
      ground (arith, drain_queue-Inv queue (fetch_metadata r c), fetch_metadata-Inv r c)

  process_queue-Inv : (c : Crawler J) → Inv c → Inv (process_metadata_queue c)
  unfolding process_metadata_queue
  process_queue-Inv c v = ground (arith, drain_queue-Inv c.metadata_queue c)

  start-Inv : (c : Crawler J) → Inv c → Inv (start c).1
  unfolding start
  start-Inv c v = ground arith

  walk-Inv : (c : Crawler J) → Inv c → Inv (on_spider_walk c)
  unfolding on_spider_walk
  walk-Inv c v = ground arith

  toggle-Inv :
      (mode ignoring : Bool) (c : Crawler J) → Inv c → Inv (on_ignore_toggle mode ignoring c)
  unfolding on_ignore_toggle
  toggle-Inv mode ignoring c v = ground arith

  -- The callback of one of the fetches that were in flight.
  on_result-Inv :
      (no_info : J) (now : ℤ) (r : MetadataRequest) (info : TorrentInfo) (success : Bool)
      (rest : List MetadataRequest) (c : Crawler J)
      → length c.in_flight ≡ suc (length rest)
      → Inv c
      → Inv (on_result no_info now r info success (record c { in_flight = rest }))
  unfolding on_result wrap32 ◌+ℤ◌
  on_result-Inv no_info now r info success rest c e v = ground arith

-- The unordered set holds one element more after an insertion.
abbrev pub Grows : (Text → List Text → List Text) → Type 0
Grows place = (hash : Text) (recent : List Text) → length (place hash recent) ≡ suc (length recent)

remember-le :
    (place : Text → List Text → List Text) (hash : Text) (recent : List Text)
    → Grows place
    → length recent ≤ max_recent_hashes
    → length (remember place hash recent) ≤ max_recent_hashes
unfolding remember
remember-le place hash recent grows h =
    ground
      (arith, grows hash recent, length-drop (length (place hash recent) / 2) (place hash recent))

-- Zero less a number.
abbrev pub minus : ℕ → ℤ
minus zero = pos 0
minus (suc n) = negsuc n

module _ {J : Type 0} (env : Surroundings J) (grows : Grows env.place) where
  on_announce-Inv :
      (info_hash ip : Text) (port : ℕ) (c : Crawler J)
      → Inv c
      → Inv (on_announce env.place env.known info_hash ip port c)
  unfolding on_announce
  on_announce-Inv info_hash ip port c v =
      ground (arith, remember-le env.place (to_hex info_hash) c.recent_hashes grows)

  fire-Inv :
      (picked : Option ((Task J × ℕ) × List (Task J × ℕ))) (c : Crawler J)
      → Inv c
      → Inv (fire env picked c)
  unfolding fire run_task on_metadata_received
  fire-Inv none c v = v
  fire-Inv (some ((Task.spider_walk, d), rest)) c v = walk-Inv _ (same v refl refl refl)
  fire-Inv (some ((ignore_toggle, d), rest)) c v =
      toggle-Inv env.mode env.ignoring _ (same v refl refl refl)
  fire-Inv (some ((process_queue, d), rest)) c v = process_queue-Inv _ (same v refl refl refl)
  fire-Inv (some ((announce h ip port, d), rest)) c v =
      on_announce-Inv h ip port _ (same v refl refl refl)
  fire-Inv (some ((metadata_received t, d), rest)) c v = same v refl refl refl

  complete-Inv :
      (info : TorrentInfo) (success : Bool) (now : ℤ)
      (picked : Option (MetadataRequest × List MetadataRequest)) (c : Crawler J)
      → Shortens (length c.in_flight) picked
      → Inv c
      → Inv (complete env info success now picked c)
  unfolding complete
  complete-Inv info success now none c s v = v
  complete-Inv info success now (some (r, rest)) c s v =
      on_result-Inv env.no_info now r info success rest c s v

  handle-Inv : (e : Event) (c : Crawler J) → e ≢ stops → Inv c → Inv (handle env c e)
  unfolding handle
  handle-Inv starts c k v = start-Inv c v
  handle-Inv stops c k v = absurd (k refl)
  handle-Inv (announces h ip port) c k v = same v refl refl refl
  handle-Inv (completes i info success now) c k v =
      complete-Inv info success now (pick i c.in_flight) c (pick-Shortens i c.in_flight) v
  handle-Inv (fires i) c k v = fire-Inv (pick i c.pending) c v

  -- As long as the crawler is not stopped, its counter is the number of metadata fetches in
  -- flight, these are at most ten, and it remembers at most ten thousand hashes: after any calls,
  -- announces, completions and timers, in any order.
  pub run-Inv :
      (es : List Event) (c : Crawler J) → All (λ e. e ≢ stops) es → Inv c → Inv (run env c es)
  unfolding run
  run-Inv [] c k v = v
  run-Inv (e ∷ es) c k v = run-Inv es (handle env c e) k.1 (handle-Inv e c k.0 v)

  -- A crawler that does not run, whose counter is below zero by the fetches that are no longer in flight.
  record Owes (n : ℕ) (c : Crawler J) : Type 0 where
    idle : c.running ≡ false
    returned : length c.in_flight ≤ n
    owed : c.active_fetches ≡ minus (n - length c.in_flight)

  on_result-Owes :
      (n : ℕ) (now : ℤ) (r : MetadataRequest) (info : TorrentInfo) (success : Bool)
      (rest : List MetadataRequest) (c : Crawler J)
      → n < 2 ^ 31
      → length c.in_flight ≡ suc (length rest)
      → Owes n c
      → Owes n (on_result env.no_info now r info success (record c { in_flight = rest }))
  unfolding on_result wrap32 ◌+ℤ◌
  on_result-Owes n now r info success rest c small e v = ground arith

  complete-Owes :
      (n : ℕ) (info : TorrentInfo) (success : Bool) (now : ℤ)
      (picked : Option (MetadataRequest × List MetadataRequest)) (c : Crawler J)
      → n < 2 ^ 31
      → Shortens (length c.in_flight) picked
      → Owes n c
      → Owes n (complete env info success now picked c)
  unfolding complete
  complete-Owes n info success now none c small s v = v
  complete-Owes n info success now (some (r, rest)) c small s v =
      on_result-Owes n now r info success rest c small s v

  idle_kept :
      (n : ℕ) (c d : Crawler J)
      → Owes n c
      → c.running ≡ d.running
      → c.active_fetches ≡ d.active_fetches
      → c.in_flight ≡ d.in_flight
      → Owes n d
  idle_kept n c d v r a f = ground arith

  on_announce-Owes :
      (n : ℕ) (info_hash ip : Text) (port : ℕ) (c : Crawler J)
      → Owes n c
      → Owes n (on_announce env.place env.known info_hash ip port c)
  unfolding on_announce
  on_announce-Owes n info_hash ip port c v = ground arith

  fire-Owes :
      (n : ℕ) (picked : Option ((Task J × ℕ) × List (Task J × ℕ))) (c : Crawler J)
      → Owes n c
      → Owes n (fire env picked c)
  unfolding fire run_task on_metadata_received on_spider_walk on_ignore_toggle
      process_metadata_queue
  fire-Owes n none c v = v
  fire-Owes n (some ((Task.spider_walk, d), rest)) c v = ground arith
  fire-Owes n (some ((ignore_toggle, d), rest)) c v = ground arith
  fire-Owes n (some ((process_queue, d), rest)) c v = ground arith
  fire-Owes n (some ((announce h ip port, d), rest)) c v =
      on_announce-Owes n h ip port _ (idle_kept n c _ v refl refl refl)
  fire-Owes n (some ((metadata_received t, d), rest)) c v = idle_kept n c _ v refl refl refl

  handle-Owes :
      (n : ℕ) (e : Event) (c : Crawler J)
      → n < 2 ^ 31
      → e ≢ starts
      → Owes n c
      → Owes n (handle env c e)
  unfolding handle
  handle-Owes n starts c small k v = absurd (k refl)
  handle-Owes n stops c small k v = unfold stop in ground arith
  handle-Owes n (announces h ip port) c small k v = idle_kept n c _ v refl refl refl
  handle-Owes n (completes i info success now) c small k v =
      complete-Owes n info success now (pick i c.in_flight) c small (pick-Shortens i c.in_flight) v
  handle-Owes n (fires i) c small k v = fire-Owes n (pick i c.pending) c v

  run-Owes :
      (n : ℕ) (es : List Event) (c : Crawler J)
      → n < 2 ^ 31
      → All (λ e. e ≢ starts) es
      → Owes n c
      → Owes n (run env c es)
  unfolding run
  run-Owes n [] c small k v = v
  run-Owes n (e ∷ es) c small k v =
      run-Owes n es (handle env c e) small k.1 (handle-Owes n e c small k.0 v)

  stop-Owes : (c : Crawler J) → c.running ≡ true → Owes (length c.in_flight) (stop c)
  unfolding stop
  stop-Owes c running = ground arith

  -- Stopping a crawler that runs sets its counter to zero although its fetches go on: after any
  -- announces, completions, timers and stops that follow, up to a new start, the counter is below zero
  -- by the number of the fetches that have come back since, and it stays there. Where fewer than 2 ^ 31
  -- were in flight.
  pub stop_undercounts :
      (c : Crawler J) (es : List Event)
      → c.running ≡ true
      → length c.in_flight < 2 ^ 31
      → All (λ e. e ≢ starts) es
      → (length (run env c (stops ∷ es)).in_flight ≤ length c.in_flight)
        × ((run env c (stops ∷ es)).active_fetches
            ≡ minus (length c.in_flight - length (run env c (stops ∷ es)).in_flight))
  unfolding run handle
  stop_undercounts c es running small k =
      let v = run-Owes (length c.in_flight) es (stop c) small k (stop-Owes c running) in
      (v.returned, v.owed)
