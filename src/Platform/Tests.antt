-- ===== src/Platform/Tests.antt =====
-- The theorems on native/platform at concrete inputs, with a heap that is a list.
use mathlib.Core.List.{Permᴰ}
use mathlib.Core.List.Permᴰ
use mathlib.Core.Path.{subst}
use rats_search_tui.Base.{
  ℕ, pos, ◌≤◌, ◌≡◌, refl, sym, ap, true, false, List, [], ◌∷◌, ◌++◌, Option, none, some, map, All,
  Perm-All, leb, leb→le, Bool-cases, inl, inr, arith, if◌then◌else◌,
}
use rats_search_tui.Platform.EngineLoop.Heap.{DelayedTask, HeapOps, HeapLaws}
use rats_search_tui.Platform.EngineLoop.{EngineLoop, posted, delayed, round}
use rats_search_tui.Platform.EngineLoop
use rats_search_tui.Platform.EngineLoop.Rounds.{IsCollected, round_lem}
use rats_search_tui.Platform.EngineLoop.Histories.{handed_in, posted_in, immediate, posted_are_run}
use rats_search_tui.Platform.EngineLoop.Histories
use rats_search_tui.Platform.WorkerPool
use rats_search_tui.Platform.WorkerPool.Order.{IsFifo, run-IsFifo}

-- The earliest task, and the others.
abbrev select : DelayedTask ℕ → List (DelayedTask ℕ) → DelayedTask ℕ × List (DelayedTask ℕ)
select d [] = (d, [])
select d (e ∷ es) =
    let r = select e es in if leb d.when r.0.when then (d, e ∷ es) else (r.0, d ∷ r.1)

abbrev pop_list : List (DelayedTask ℕ) → Option (DelayedTask ℕ × List (DelayedTask ℕ))
pop_list [] = none
pop_list (d ∷ ds) = some (select d ds)

abbrev heap : HeapOps ℕ
heap = record {
  Heap = List (DelayedTask ℕ);
  empty = [];
  push = λ d h. d ∷ h;
  pop = pop_list;
  elements = λ h. h;
}

select_perm :
    (d : DelayedTask ℕ) (es : List (DelayedTask ℕ))
    → Permᴰ (d ∷ es) ((select d es).0 ∷ (select d es).1)
select_perm d [] = Permᴰ.refl (d ∷ [])
select_perm d (e ∷ es) = elim (Bool-cases (leb d.when (select e es).0.when)) [
  | inl q ↦ rw q (Permᴰ.refl (d ∷ e ∷ es))
  | inr q ↦ rw q (Permᴰ.trans (Permᴰ.cons refl (select_perm e es)) (Permᴰ.swap refl refl))
]

all_le :
    (m n : ℕ) (ds : List (DelayedTask ℕ))
    → m ≤ n
    → All (λ e. n ≤ e.when) ds
    → All (λ e. m ≤ e.when) ds
all_le m n [] h k = tt
all_le m n (d ∷ ds) h k = (omega arith, all_le m n ds h k.1)

abbrev IsFront : DelayedTask ℕ × List (DelayedTask ℕ) → Type 0
IsFront p = All (λ t. p.0.when ≤ t.when) (p.0 ∷ p.1)

select_first :
    (d e : DelayedTask ℕ) (es : List (DelayedTask ℕ))
    → leb d.when (select e es).0.when ≡ true
    → select d (e ∷ es) ≡ (d, e ∷ es)
select_first d e es q = rw q refl

select_later :
    (d e : DelayedTask ℕ) (es : List (DelayedTask ℕ))
    → leb d.when (select e es).0.when ≡ false
    → select d (e ∷ es) ≡ ((select e es).0, d ∷ (select e es).1)
select_later d e es q = rw q refl

select_front :
    (d : DelayedTask ℕ) (es : List (DelayedTask ℕ))
    → All (λ e. (select d es).0.when ≤ e.when) ((select d es).0 ∷ (select d es).1)
select_front d [] = (omega arith, tt)
select_front d (e ∷ es) =
    let r = select e es in
    let front = select_front e es in
    elim (Bool-cases (leb d.when r.0.when)) [
      | inl q ↦ subst IsFront (sym (select_first d e es q)) (
        omega arith,
        all_le d.when r.0.when (e ∷ es) (leb→le d.when r.0.when q)
            (Perm-All _ (Permᴰ.symm (select_perm e es)) front),
      )
      | inr q ↦ subst IsFront (sym (select_later d e es q)) (omega arith, (ground arith, front.1))
    ]

abbrev popped :
    DelayedTask ℕ × List (DelayedTask ℕ)
    → Option (DelayedTask ℕ × List (DelayedTask ℕ))
    → DelayedTask ℕ × List (DelayedTask ℕ)
popped r none = r
popped r (some p) = p

pop_list_perm :
    (h : List (DelayedTask ℕ)) (d : DelayedTask ℕ) (h' : List (DelayedTask ℕ))
    → pop_list h ≡ some (d, h')
    → Permᴰ h (d ∷ h')
pop_list_perm [] d h' e = absurd (cc e)
pop_list_perm (x ∷ xs) d h' e =
    subst (λ (p : DelayedTask ℕ × List (DelayedTask ℕ)). Permᴰ (x ∷ xs) (p.0 ∷ p.1))
      (ap (popped (d, h')) e) (select_perm x xs)

pop_list_front :
    (h : List (DelayedTask ℕ)) (d : DelayedTask ℕ) (h' : List (DelayedTask ℕ))
    → pop_list h ≡ some (d, h')
    → All (λ e. d.when ≤ e.when) (d ∷ h')
pop_list_front [] d h' e = absurd (cc e)
pop_list_front (x ∷ xs) d h' e =
    subst (λ (p : DelayedTask ℕ × List (DelayedTask ℕ)). All (λ t. p.0.when ≤ t.when) (p.0 ∷ p.1))
      (ap (popped (d, h')) e) (select_front x xs)

pop_list-none : (h : List (DelayedTask ℕ)) → pop_list h ≡ none → h ≡ []
pop_list-none [] e = refl
pop_list-none (x ∷ xs) e = absurd (cc e)

heap-HeapLaws : HeapLaws heap
heap-HeapLaws = record {
  elements-empty = refl;
  elements-push = λ d h. Permᴰ.refl (d ∷ h);
  pop_none = pop_list-none;
  pop_perm = pop_list_perm;
  pop_front = pop_list_front;
}

abbrev busy : EngineLoop heap
busy = record {
  queue = 1 ∷ 2 ∷ [];
  heap =
      record { when = 70; task = 7 }
      ∷ record { when = 30; task = 3 }
      ∷ record { when = 50; task = 5 }
      ∷ [];
  stop_requested = false;
  executed = [];
}

round_lem_example :
    (due : List (DelayedTask ℕ)) × ((round heap 50 busy).executed
      ≡ busy.executed ++ (map posted busy.queue ++ map delayed due))
    × ((round heap 50 busy).queue ≡ [])
    × IsCollected heap heap-HeapLaws 50 busy.heap (due, (round heap 50 busy).heap)
round_lem_example = round_lem heap heap-HeapLaws 50 busy refl

abbrev history : List (Histories.Event ℕ)
history =
    Histories.posts 4 ∷ Histories.delays 10 6 (pos 1) ∷ Histories.rounds 20 ∷ Histories.posts 8 ∷ []

goes_on : (Histories.run heap busy history).stop_requested ≡ false
unfolding Histories.run Histories.handle EngineLoop.post EngineLoop.post_delayed round
    EngineLoop.collect_due_tasks
goes_on = refl

posted_are_run_example :
    immediate (round heap 50 (Histories.run heap busy history)).executed
    ≡ handed_in heap busy ++ posted_in history
posted_are_run_example = posted_are_run heap busy history 50 goes_on

abbrev pool : WorkerPool.WorkerPool ℕ
pool = record {
  threads = 2;
  queue = 3 ∷ [];
  stopping = false;
  running = 1 ∷ 2 ∷ [];
  accepted = 1 ∷ 2 ∷ 3 ∷ [];
  started = 1 ∷ 2 ∷ [];
  dropped = [];
}

pool-IsFifo : IsFifo pool
pool-IsFifo = record {
  fifo = refl;
  busy = omega arith;
  kept = λ e. refl;
  cleared = λ e. absurd (cc e);
}

run-IsFifo_example : IsFifo (
    WorkerPool.run pool (
      WorkerPool.posts 4
      ∷ WorkerPool.finishes 0
      ∷ WorkerPool.takes
      ∷ WorkerPool.stops
      ∷ WorkerPool.posts 5
      ∷ []))
run-IsFifo_example =
    run-IsFifo pool
      (WorkerPool.posts 4
        ∷ WorkerPool.finishes 0
        ∷ WorkerPool.takes
        ∷ WorkerPool.stops
        ∷ WorkerPool.posts 5
        ∷ [])
      pool-IsFifo

abbrev closing : WorkerPool.WorkerPool ℕ
closing = record pool { stopping = true; queue = []; dropped = 3 ∷ [] }

closing-IsFifo : IsFifo closing
closing-IsFifo = record {
  fifo = refl;
  busy = omega arith;
  kept = λ e. absurd (cc e);
  cleared = λ e. refl;
}
