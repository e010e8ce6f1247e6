-- ===== src/Engine/Crawler/Work.antt =====
-- native/engine/crawler.cpp retries a metadata fetch at most once: an announce is worth two fetches,
-- a request with no peer one, and every completion uses up one of them.
use rats_search_tui.Base.{
  ℕ, zero, suc, ◌+◌, ◌*◌, ◌≤◌, ◌<◌, ℤ, ◌≡◌, refl, Bool, List, [], ◌∷◌, ◌++◌, Option, none, some,
  Text, pick, keep, arith, if◌then◌else◌,
}
use rats_search_tui.Engine.Crawler.{
  MetadataRequest, TorrentInfo, Task, ignore_toggle, process_queue, announce, metadata_received,
  Crawler, start, stop, to_hex, on_spider_walk, on_ignore_toggle, fetch_metadata, drain_queue,
  process_metadata_queue, on_announce, on_result, on_metadata_received, is_fast_path, Event, starts,
  stops, announces, completes, fires, Surroundings, run_task, fire, complete, handle, run,
}

-- How many fetches a request can still lead to, itself included.
abbrev pub worth : MetadataRequest → ℕ
worth r = if is_fast_path r then 2 else 1

abbrev pub load : List MetadataRequest → ℕ
load [] = 0
load (r ∷ rs) = worth r + load rs

abbrev pub work : {J : Type 0} → Crawler J → ℕ
work c = load c.metadata_queue + load c.in_flight

load-append : (xs ys : List MetadataRequest) → load (xs ++ ys) ≡ load xs + load ys
load-append [] ys = omega arith
load-append (x ∷ xs) ys = omega (arith, load-append xs ys)

abbrev Unloads : ℕ → Option (MetadataRequest × List MetadataRequest) → Type 0
Unloads n none = Unit
Unloads n (some (r, rest)) = n ≡ worth r + load rest

keep-Unloads :
    (x : MetadataRequest) (n : ℕ) (picked : Option (MetadataRequest × List MetadataRequest))
    → Unloads n picked
    → Unloads (worth x + n) (keep x picked)
keep-Unloads x n none h = tt
keep-Unloads x n (some (r, rest)) h = omega arith

pick-Unloads : (i : ℕ) (xs : List MetadataRequest) → Unloads (load xs) (pick i xs)
pick-Unloads i [] = tt
pick-Unloads zero (x ∷ xs) = refl
pick-Unloads (suc i) (x ∷ xs) = keep-Unloads x (load xs) (pick i xs) (pick-Unloads i xs)

module _ {J : Type 0} where
  drain_queue-work :
      (queue : List MetadataRequest) (c : Crawler J)
      → work (drain_queue queue c) ≤ load queue + load c.in_flight
  unfolding drain_queue fetch_metadata
  drain_queue-work [] c = omega arith
  drain_queue-work (r ∷ queue) c =
      let rest = drain_queue-work queue (fetch_metadata r c) in ground (arith, rest)

  process_queue-work : (c : Crawler J) → work (process_metadata_queue c) ≤ work c
  unfolding process_metadata_queue
  process_queue-work c = ground (arith, drain_queue-work c.metadata_queue c)

  on_result-work :
      (no_info : J) (now : ℤ) (r : MetadataRequest) (info : TorrentInfo) (success : Bool)
      (rest : List MetadataRequest) (c : Crawler J)
      → load c.in_flight ≡ worth r + load rest
      → work (on_result no_info now r info success (record c { in_flight = rest })) < work c
  unfolding on_result
  on_result-work no_info now r info success rest c e = ground (
    arith,
    load-append c.metadata_queue
        (record { info_hash = r.info_hash; peer_ip = []; peer_port = 0 } ∷ []),
  )

  on_announce-work :
      (place : Text → List Text → List Text) (known : Text → Bool) (h ip : Text) (port : ℕ)
      (c : Crawler J)
      → work (on_announce place known h ip port c) ≤ work c + 2
  unfolding on_announce
  on_announce-work place known h ip port c = ground (
    arith,
    load-append c.metadata_queue
        (record { info_hash = to_hex h; peer_ip = ip; peer_port = port } ∷ []),
  )

-- What one event did: whether it ran the handler of an announce, or completed a fetch.
abbrev is_announce : {J : Type 0} → Option ((Task J × ℕ) × List (Task J × ℕ)) → ℕ
is_announce (some ((announce h ip port, d), rest)) = 1
is_announce _ = 0

abbrev is_completion : Option (MetadataRequest × List MetadataRequest) → ℕ
is_completion none = 0
is_completion (some _) = 1

abbrev pub announced : {J : Type 0} → Crawler J → Event → ℕ
announced c (fires i) = is_announce (pick i c.pending)
announced c _ = 0

abbrev pub completed : {J : Type 0} → Crawler J → Event → ℕ
completed c (completes i info success now) = is_completion (pick i c.in_flight)
completed c _ = 0

module _ {J : Type 0} (env : Surroundings J) where
  -- The announces that were handled in a history, and the fetches that were completed.
  pub total : (Crawler J → Event → ℕ) → Crawler J → List Event → ℕ
  total count c [] = 0
  total count c (e ∷ es) = count c e + total count (handle env c e) es

  fire-work :
      (picked : Option ((Task J × ℕ) × List (Task J × ℕ))) (c : Crawler J)
      → work (fire env picked c) ≤ work c + 2 * is_announce picked
  unfolding fire run_task on_metadata_received on_spider_walk on_ignore_toggle
  fire-work none c = omega arith
  fire-work (some ((Task.spider_walk, d), rest)) c = ground arith
  fire-work (some ((ignore_toggle, d), rest)) c = ground arith
  fire-work (some ((process_queue, d), rest)) c =
      omega (arith, process_queue-work (record c { pending = rest }))
  fire-work (some ((announce h ip port, d), rest)) c =
      omega (arith, on_announce-work env.place env.known h ip port (record c { pending = rest }))
  fire-work (some ((metadata_received t, d), rest)) c = omega arith

  complete-work :
      (info : TorrentInfo) (success : Bool) (now : ℤ)
      (picked : Option (MetadataRequest × List MetadataRequest)) (c : Crawler J)
      → Unloads (load c.in_flight) picked
      → work (complete env info success now picked c) + is_completion picked ≤ work c
  unfolding complete
  complete-work info success now none c e = omega arith
  complete-work info success now (some (r, rest)) c e =
      omega (arith, on_result-work env.no_info now r info success rest c e)

  handle-work :
      (e : Event) (c : Crawler J)
      → work (handle env c e) + completed c e ≤ work c + 2 * announced c e
  unfolding handle
  handle-work starts c = unfold start in ground arith
  handle-work stops c = unfold stop in ground arith
  handle-work (announces h ip port) c = omega arith
  handle-work (completes i info success now) c =
      omega
        (arith, complete-work info success now (pick i c.in_flight) c (pick-Unloads i c.in_flight))
  handle-work (fires i) c = omega (arith, fire-work (pick i c.pending) c)

  -- However calls, timers and completions are ordered, the fetches that complete are at most twice
  -- the announces that are handled, plus what the queue and the fetches in flight were worth at
  -- the start: no announce leads to more than two fetches.
  pub completions_bounded :
      (es : List Event) (c : Crawler J)
      → work (run env c es) + total completed c es ≤ work c + 2 * total announced c es
  unfolding run total
  completions_bounded [] c = omega arith
  completions_bounded (e ∷ es) c =
      omega (arith, completions_bounded es (handle env c e), handle-work e c)
