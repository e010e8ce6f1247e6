-- ===== src/Platform/EngineLoop/Rounds.antt =====
-- What a round of native/platform/engine_loop.cpp runs.
use mathlib.Core.List.{Permᴰ}
use mathlib.Core.Path.{subst}
use mathlib.Core.List.Permᴰ
use rats_search_tui.Base.{
  ℕ, zero, suc, ◌≤◌, ◌<◌, ◌≡◌, refl, false, List, [], ◌∷◌, ◌++◌, map, length, All, Perm-All,
  length-Perm, All_append_iff, leb, leb→le, Bool-cases, Option-cases, inl, inr, arith,
}
use rats_search_tui.Platform.EngineLoop.Heap.{DelayedTask, HeapOps, HeapLaws}
use rats_search_tui.Platform.EngineLoop.{
  EngineLoop, posted, delayed, collect_due, collect_due_tasks, round,
}

module _ {T : Type 0} (ops : HeapOps T) (laws : HeapLaws ops) where
  open ops use {Heap, pop, elements}

  -- By the times at which they are due.
  abbrev pub IsSorted : List (DelayedTask T) → Type 0
  IsSorted [] = Unit
  IsSorted (d ∷ ds) = All (λ e. d.when ≤ e.when) ds × IsSorted ds

  -- What was collected and what is left: all that is due by now, in order, and nothing else.
  pub record IsCollected (now : ℕ) (h : Heap) (r : List (DelayedTask T) × Heap) : Type 0 where
    pub due : All (λ d. d.when ≤ now) r.0
    pub later : All (λ d. now < d.when) (elements r.1)
    pub sorted : IsSorted r.0
    pub same : Permᴰ (elements h) (r.0 ++ elements r.1)

  all_later :
      (now when : ℕ) (ds : List (DelayedTask T))
      → now < when
      → All (λ e. when ≤ e.when) ds
      → All (λ e. now < e.when) ds
  all_later now when [] lt h = tt
  all_later now when (d ∷ ds) lt h = (omega arith, all_later now when ds lt h.1)

  no_elements : (ds : List (DelayedTask T)) → length ds ≤ 0 → ds ≡ []
  no_elements [] h = refl
  no_elements (d ∷ ds) h = absurd (omega arith)

  nothing : (now : ℕ) (h : Heap) → elements h ≡ [] → IsCollected now h ([], h)
  nothing now h e = record {
    due = tt;
    later = rw e tt;
    sorted = tt;
    same = Permᴰ.refl (elements h);
  }

  collect_due-IsCollected :
      (f now : ℕ) (h : Heap) → length (elements h) ≤ f → IsCollected now h (collect_due ops f now h)
  unfolding collect_due
  collect_due-IsCollected zero now h enough = nothing now h (no_elements (elements h) enough)
  collect_due-IsCollected (suc f) now h enough = elim (Option-cases (pop h)) [
    | inl e ↦ rw (e, collect_due) (nothing now h (laws.pop_none h e))
    | inr ((d, h'), e) ↦
        let same = laws.pop_perm h d h' e in
        let front = laws.pop_front h d h' e in
        let r = collect_due ops f now h' in
        let c = collect_due-IsCollected f now h' (omega (arith, length-Perm same)) in
        elim (Bool-cases (leb d.when now)) [
          | inl q ↦
              rw (e, collect_due, q)
                (record {
                  due = (leb→le d.when now q, c.due);
                  later = c.later;
                  sorted = (
                    (All_append_iff (λ (x : DelayedTask T). d.when ≤ x.when) r.0 (elements r.1)
                        (Perm-All _ c.same front.1)).0,
                    c.sorted,
                  );
                  same = Permᴰ.trans same (Permᴰ.cons refl c.same);
                })
          | inr q ↦
              rw (e, collect_due, q)
                (record {
                  due = tt;
                  later =
                      Perm-All _ (Permᴰ.symm same)
                        (all_later now d.when (d ∷ elements h') (ground arith) front);
                  sorted = tt;
                  same = Permᴰ.refl (elements h);
                })
        ]
  ]

  -- A round that is not stopped runs the tasks that were posted, in order, and then exactly the
  -- delayed ones that are due, by the times at which they are due; it leaves no posted task, and of
  -- the delayed ones those that are due later.
  pub round_lem :
      (now : ℕ) (l : EngineLoop ops)
      → l.stop_requested ≡ false
      → (due : List (DelayedTask T)) × ((round ops now l).executed
          ≡ l.executed ++ (map posted l.queue ++ map delayed due))
        × ((round ops now l).queue ≡ [])
        × IsCollected now l.heap (due, (round ops now l).heap)
  unfolding round collect_due_tasks
  round_lem now l e =
      let r = collect_due ops (length (elements l.heap)) now l.heap in
      (
        r.0,
        ground arith,
        ground arith,
        subst (λ (h : Heap). IsCollected now l.heap (r.0, h)) (ground arith)
            (collect_due-IsCollected (length (elements l.heap)) now l.heap (omega arith)),
      )
