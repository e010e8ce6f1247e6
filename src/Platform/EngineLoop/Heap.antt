-- ===== src/Platform/EngineLoop/Heap.antt =====
-- The heap that native/platform/engine_loop.cpp keeps by std::push_heap and std::pop_heap, a
-- parameter with the laws that the standard gives these.
use mathlib.Core.List.{Permᴰ}
use rats_search_tui.Base.{ℕ, ◌≤◌, ◌≡◌, List, [], ◌∷◌, Option, none, some, All}

pub record DelayedTask (T : Type 0) : Type 0 where
  pub when : ℕ
  pub task : T

-- `pop` gives the front, if there is one, and the heap without it.
pub record HeapOps (T : Type 0) : Type 1 where
  pub Heap : Type 0
  pub empty : Heap
  pub push : DelayedTask T → Heap → Heap
  pub pop : Heap → Option (DelayedTask T × Heap)
  pub elements : Heap → List (DelayedTask T)

-- Nothing is lost or made up, and the front is not later than anything in the heap.
pub record HeapLaws {T : Type 0} (heap : HeapOps T) : Type 0 where
  pub elements-empty : heap.elements heap.empty ≡ []
  pub elements-push :
      (d : DelayedTask T) (h : heap.Heap)
      → Permᴰ (heap.elements (heap.push d h)) (d ∷ heap.elements h)
  pub pop_none : (h : heap.Heap) → heap.pop h ≡ none → heap.elements h ≡ []
  pub pop_perm :
      (h : heap.Heap) (d : DelayedTask T) (h' : heap.Heap)
      → heap.pop h ≡ some (d, h')
      → Permᴰ (heap.elements h) (d ∷ heap.elements h')
  pub pop_front :
      (h : heap.Heap) (d : DelayedTask T) (h' : heap.Heap)
      → heap.pop h ≡ some (d, h')
      → All (λ e. d.when ≤ e.when) (d ∷ heap.elements h')
