-- ===== src/Platform/EngineLoop.antt =====
-- native/platform/engine_loop.h and engine_loop.cpp: the queue of tasks that one thread runs. Time
-- is counted in nanoseconds; the heap of the delayed tasks is an argument, since its operations are
-- those of the standard library. `executed` holds the tasks that were run, in order, each with the
-- time it was due if it was delayed.
pub mod Heap
pub mod Rounds
pub mod Histories
use rats_search_tui.Base.{
  ℤ, pos_part, neg_part, ℕ, zero, suc, ◌+◌, ◌-◌, ◌*◌, ◌/◌, Bool, true, false, List, [], ◌∷◌, ◌++◌,
  map, Option, none, some, length, leb, ltb, null, min, ◌&&◌, if◌then◌else◌,
}
use Heap.{DelayedTask, HeapOps}

abbrev pub ticks_per_ms : ℕ
ticks_per_ms = 1000000

abbrev pub max_poll_ms : ℕ
max_poll_ms = 200

pub data Executed (T : Type 0) : Type 0 where
  posted : T → Executed T
  delayed : DelayedTask T → Executed T

module _ {T : Type 0} (ops : HeapOps T) where
  open ops use {Heap, empty, push, pop, elements}

  pub record EngineLoop : Type 0 where
    pub queue : List T
    pub heap : Heap
    pub stop_requested : Bool
    pub executed : List (Executed T)

  unfoldable pub new : EngineLoop
  new = record { queue = []; heap = empty; stop_requested = false; executed = [] }

  unfoldable pub post : T → EngineLoop → EngineLoop
  post t l = record l { queue = l.queue ++ t ∷ [] }

  -- The delay is an int; the clock has been counted for longer than a delay below zero reaches back.
  unfoldable pub post_delayed : ℕ → T → ℤ → EngineLoop → EngineLoop
  post_delayed now t delay_ms l = record l {
    heap =
        push
          (record {
            when = now + pos_part delay_ms * ticks_per_ms - neg_part delay_ms * ticks_per_ms;
            task = t;
          })
          l.heap;
  }

  unfoldable pub stop : EngineLoop → EngineLoop
  stop l = record l { stop_requested = true }

  -- The loop of collectDueTasks on the heap; a round of fuel for each element.
  unfoldable pub collect_due : ℕ → ℕ → Heap → List (DelayedTask T) × Heap
  collect_due zero now h = ([], h)
  collect_due (suc f) now h = elim (pop h) [
    | none ↦ ([], h)
    | some (d, h') ↦
        let (due, left) = collect_due f now h' in
        if leb d.when now then (d ∷ due, left) else ([], h)
  ]

  unfoldable pub collect_due_tasks : ℕ → EngineLoop → List (Executed T) × EngineLoop
  collect_due_tasks now l =
      let (due, left) = collect_due (length (elements l.heap)) now l.heap in
      (map posted l.queue ++ map delayed due, record l { queue = []; heap = left })

  -- For how long a round waits at most, in milliseconds: not at all if a task is there or due.
  unfoldable pub wait_for : ℕ → EngineLoop → ℕ
  wait_for now l =
      let until_next : ℕ = elim (pop l.heap) [
        | none ↦ max_poll_ms
        | some (d, _) ↦ min ((d.when - now) / ticks_per_ms) max_poll_ms
      ] in
      if null l.queue && ltb 0 until_next then until_next else 0

  -- A round of run, at the time at which its tasks are collected.
  unfoldable pub round : ℕ → EngineLoop → EngineLoop
  round now l =
      let (tasks, l') = collect_due_tasks now l in
      if l.stop_requested then l else record l' { executed = l'.executed ++ tasks }
