-- ===== src/Platform/EngineLoop/Histories.antt =====
-- The tasks that are posted to native/platform/engine_loop.cpp over any history.
use mathlib.Core.List.{append_assoc, append-nil}
use rats_search_tui.Base.{
  ℤ, ℕ, ◌≡◌, refl, sym, ap, ◌∙◌, false, List, [], ◌∷◌, ◌++◌, map, length, arith,
}
use rats_search_tui.Platform.EngineLoop.Heap.{DelayedTask, HeapOps}
use rats_search_tui.Platform.EngineLoop.{
  EngineLoop, Executed, posted, delayed, collect_due, collect_due_tasks, round, post, post_delayed,
  stop,
}

pub data Event (T : Type 0) : Type 0 where
  posts : T → Event T
  delays : ℕ → T → ℤ → Event T
  rounds : ℕ → Event T
  stops : Event T

module _ {T : Type 0} where
  -- The tasks that a history posts without a delay.
  abbrev pub posted_in : List (Event T) → List T
  posted_in [] = []
  posted_in (posts t ∷ es) = t ∷ posted_in es
  posted_in (delays now t ms ∷ es) = posted_in es
  posted_in (rounds now ∷ es) = posted_in es
  posted_in (stops ∷ es) = posted_in es

  -- Those of the executed tasks that were posted without a delay.
  abbrev pub immediate : List (Executed T) → List T
  immediate [] = []
  immediate (posted t ∷ xs) = t ∷ immediate xs
  immediate (delayed d ∷ xs) = immediate xs

  immediate-append :
      (xs ys : List (Executed T)) → immediate (xs ++ ys) ≡ immediate xs ++ immediate ys
  immediate-append [] ys = refl
  immediate-append (posted t ∷ xs) ys = ap (λ (ts : List T). t ∷ ts) (immediate-append xs ys)
  immediate-append (delayed d ∷ xs) ys = immediate-append xs ys

  immediate-posted : (ts : List T) → immediate (map posted ts) ≡ ts
  immediate-posted [] = refl
  immediate-posted (t ∷ ts) = ap (λ (us : List T). t ∷ us) (immediate-posted ts)

  immediate-delayed : (ds : List (DelayedTask T)) → immediate (map delayed ds) ≡ []
  immediate-delayed [] = refl
  immediate-delayed (d ∷ ds) = immediate-delayed ds

module _ {T : Type 0} (ops : HeapOps T) where
  unfoldable pub handle : EngineLoop ops → Event T → EngineLoop ops
  handle l (posts t) = post ops t l
  handle l (delays now t ms) = post_delayed ops now t ms l
  handle l (rounds now) = round ops now l
  handle l stops = stop ops l

  unfoldable pub run : EngineLoop ops → List (Event T) → EngineLoop ops
  run l [] = l
  run l (e ∷ es) = run (handle l e) es

  -- What was run and what still waits.
  abbrev pub handed_in : EngineLoop ops → List T
  handed_in l = immediate l.executed ++ l.queue

  batch_lem :
      (xs : List (Executed T)) (ts : List T) (ds : List (DelayedTask T))
      → immediate (xs ++ (map posted ts ++ map delayed ds)) ++ [] ≡ immediate xs ++ ts
  batch_lem xs ts ds = simp (append-nil, immediate-append, immediate-posted, immediate-delayed)

  round_empties :
      (now : ℕ) (l : EngineLoop ops) → l.stop_requested ≡ false → (round ops now l).queue ≡ []
  unfolding round collect_due_tasks
  round_empties now l e = ground arith

  round-handed_in : (now : ℕ) (l : EngineLoop ops) → handed_in (round ops now l) ≡ handed_in l
  unfolding round collect_due_tasks
  round-handed_in now l =
      let r = collect_due ops (length (ops.elements l.heap)) now l.heap in
      ground (arith, batch_lem l.executed l.queue r.0)

  run-handed_in :
      (l : EngineLoop ops) (es : List (Event T))
      → handed_in (run l es) ≡ handed_in l ++ posted_in es
  unfolding run handle post post_delayed stop
  run-handed_in l [] = sym (append-nil _)
  run-handed_in l (posts t ∷ es) =
      run-handed_in (post ops t l) es
      ∙ (ap (λ (ts : List T). ts ++ posted_in es)
            (sym (append_assoc (immediate l.executed) l.queue (t ∷ [])))
          ∙ append_assoc (handed_in l) (t ∷ []) (posted_in es))
  run-handed_in l (delays now t ms ∷ es) = run-handed_in (post_delayed ops now t ms l) es
  run-handed_in l (rounds now ∷ es) =
      run-handed_in (round ops now l) es
      ∙ ap (λ (ts : List T). ts ++ posted_in es) (round-handed_in now l)
  run-handed_in l (stops ∷ es) = run-handed_in (stop ops l) es

  -- After any history that has not asked the loop to stop, one more round has run all that was
  -- posted: of the tasks without a delay, exactly those that were run or waited before and then those
  -- of the history, in the order in which they were posted.
  pub posted_are_run :
      (l : EngineLoop ops) (es : List (Event T)) (now : ℕ)
      → (run l es).stop_requested ≡ false
      → immediate (round ops now (run l es)).executed ≡ handed_in l ++ posted_in es
  posted_are_run l es now e =
      sym (append-nil _)
      ∙ (ap (λ (q : List T). immediate (round ops now (run l es)).executed ++ q)
            (sym (round_empties now (run l es) e))
          ∙ (round-handed_in now (run l es) ∙ run-handed_in l es))
