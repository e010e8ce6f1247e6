-- ===== src/Engine/Feed/Invariant.antt =====
-- What native/engine/feed.cpp keeps: at most a thousand items, none of them blocked.
use mathlib.Core.List.{reverse, reverse-cons}
use rats_search_tui.Base.{
  FloatOps, Permutes, eq_ℤ, ℕ, zero, suc, ◌+◌, ◌≤◌, ◌<◌, ℤ, pos, ◌≡◌, ap, refl, Bool, true, false,
  List, [], ◌∷◌, ◌++◌, map, Option, none, some, length, length-append, All, All-append, arith,
  Bool-cases, inl, inr, if◌then◌else◌,
}
use rats_search_tui.Domain.Torrent.{Torrent}
use rats_search_tui.Domain.Json.{JsonOps}
use rats_search_tui.Engine.Feed.{
  FeedItem, Feed, max_size, should_block, find_index, refresh_at, mark_dirty, Sorter,
  calculate_score, ranked, reorder, make_room, insert_item, add_item, keep_items, load,
  from_json_array,
}

abbrev pub IsAllowed : {J : Type 0} → FeedItem J → Type 0
IsAllowed item = should_block item.torrent ≡ false

-- At most a thousand items, and none that is blocked.
abbrev pub AreKept : {J : Type 0} → List (FeedItem J) → Type 0
AreKept items = (length items ≤ max_size) × All IsAllowed items

module _ {A : Type 0} where
  length-reverse : (xs : List A) → length (reverse xs) ≡ length xs
  length-reverse [] = refl
  length-reverse (x ∷ xs) =
      rw reverse-cons (omega (arith, length-append (reverse xs) (x ∷ []), length-reverse xs))

  All-reverse : (P : A → Type 0) (xs : List A) → All P xs → All P (reverse xs)
  All-reverse P [] h = h
  All-reverse P (x ∷ xs) h =
      rw reverse-cons (All-append P (reverse xs) (x ∷ []) (All-reverse P xs h.1) (h.0, tt))

module _ {A B : Type 0} where
  length-map : (f : A → B) (xs : List A) → length (map f xs) ≡ length xs
  length-map f [] = refl
  length-map f (x ∷ xs) = ap suc (length-map f xs)

  All-map : (f : A → B) (P : B → Type 0) (xs : List A) → All (λ x. P (f x)) xs → All P (map f xs)
  All-map f P [] h = tt
  All-map f P (x ∷ xs) h = (h.0, All-map f P xs h.1)

  All-pairs :
      (f : A → B) (P : A → Type 0) (xs : List A)
      → All P xs
      → All (λ (p : B × A). P p.1) (map (λ x. (f x, x)) xs)
  All-pairs f P [] h = tt
  All-pairs f P (x ∷ xs) h = (h.0, All-pairs f P xs h.1)

refresh_at-AreKept :
    {J : Type 0} (i : ℕ) (t : Torrent J) (items : List (FeedItem J)) (n : ℕ)
    → (length items ≤ n) × All IsAllowed items
    → (length (refresh_at i t items) ≤ n) × All IsAllowed (refresh_at i t items)
unfolding refresh_at should_block
refresh_at-AreKept i t [] n h = h
refresh_at-AreKept zero t (item ∷ items) n h = (h.0, (h.1.0, h.1.1))
refresh_at-AreKept (suc i) t (item ∷ items) zero h = absurd (omega arith)
refresh_at-AreKept (suc i) t (item ∷ items) (suc n) h =
    let rest = refresh_at-AreKept i t items n (omega arith, h.1.1) in (omega arith, (h.1.0, rest.1))

module _ (json : JsonOps) (float : FloatOps) (sort : Sorter float json.Json)
    (permutes : Permutes sort) where
  ranked-AreKept :
      (now : ℤ) (items : List (FeedItem json.Json))
      → AreKept items
      → AreKept (ranked json float sort now items)
  unfolding ranked
  ranked-AreKept now items h =
      let scored =
        map (λ (item : FeedItem json.Json). (calculate_score float now item, item)) items in
      (
        omega (
          arith,
          length-map (λ (p : float.Double × FeedItem json.Json). p.1) (sort scored),
          permutes.lengths scored,
          length-map {B = float.Double × FeedItem json.Json}
              (λ item. (calculate_score float now item, item)) items,
        ),
        All-map _ IsAllowed (sort scored)
            (permutes.members _ scored (All-pairs (calculate_score float now) IsAllowed items h.1)),
      )

  make_room-AreKept :
      (now : ℤ) (item : FeedItem json.Json) (items : List (FeedItem json.Json))
      → IsAllowed item
      → AreKept items
      → AreKept (make_room json float sort now item items)
  unfolding make_room
  make_room-AreKept now item [] a h = h
  make_room-AreKept now item (back ∷ items) a h = ground (arith, make_room-AreKept now item items a)

  append-AreKept :
      (items : List (FeedItem json.Json)) (item : FeedItem json.Json)
      → IsAllowed item
      → length items < max_size
      → All IsAllowed items
      → AreKept (items ++ item ∷ [])
  append-AreKept items item a room h = (
    omega (arith, length-append items (item ∷ [])),
    All-append IsAllowed items (item ∷ []) h (a, tt),
  )

  reverse-AreKept : (items : List (FeedItem json.Json)) → AreKept items → AreKept (reverse items)
  reverse-AreKept items h = (omega (arith, length-reverse items), All-reverse IsAllowed items h.1)

  insert_item-AreKept :
      (now : ℤ) (item : FeedItem json.Json) (f : Feed json.Json)
      → IsAllowed item
      → AreKept f.feed
      → AreKept (insert_item json float sort now item f).feed
  unfolding insert_item reorder
  insert_item-AreKept now item f a h =
      let sorted = ranked json float sort now f.feed in
      let roomy = reverse (make_room json float sort now item (reverse sorted)) in
      let kept = reverse-AreKept _ (
        make_room-AreKept now item (reverse sorted) a
          (reverse-AreKept sorted (ranked-AreKept now f.feed h))) in
      ground (arith, kept, append-AreKept roomy item a, append-AreKept f.feed item a)

  mark_dirty_feed : (f : Feed json.Json) → (mark_dirty f).feed ≡ f.feed
  unfolding mark_dirty
  mark_dirty_feed f = ground arith

  dated : ℤ → FeedItem json.Json → FeedItem json.Json
  dated now item = if eq_ℤ item.feed_date (pos 0) then record item { feed_date = now } else item

  dated-IsAllowed :
      (now : ℤ) (item : FeedItem json.Json) → IsAllowed item → IsAllowed (dated now item)
  unfolding dated
  dated-IsAllowed now item a = ground arith

  changed-AreKept :
      (now : ℤ) (item : FeedItem json.Json) (f : Feed json.Json) (found : Option ℕ)
      → IsAllowed item
      → AreKept f.feed
      → AreKept
          (elim found as (λ o. Feed json.Json) [
            | some i ↦ record f { feed = refresh_at i item.torrent f.feed }
            | none ↦
                insert_item json float sort now
                  (if eq_ℤ item.feed_date (pos 0) then record item { feed_date = now } else item)
                  f
          ]).feed
  unfolding dated
  changed-AreKept now item f (some i) a h = refresh_at-AreKept i item.torrent f.feed max_size h
  changed-AreKept now item f none a h =
      insert_item-AreKept now (dated now item) f (dated-IsAllowed now item a) h

  pub add_item-AreKept :
      (now : ℤ) (item : FeedItem json.Json) (f : Feed json.Json)
      → AreKept f.feed
      → AreKept (add_item json float sort now item f).feed
  unfolding add_item reorder
  add_item-AreKept now item f h = elim (Bool-cases (should_block item.torrent)) [
    | inl blocked ↦ rw blocked h
    | inr a ↦ rw a (
        rw mark_dirty_feed (
          ranked-AreKept now _
            (changed-AreKept now item f (find_index item.torrent.hash f.index_by_hash) a h)))
  ]

  keep_items-AreKept :
      (now_ms : ℤ) (n : ℕ) (vs : List json.Json)
      → n < max_size
      → (n + length (keep_items json float sort now_ms n vs) ≤ max_size)
        × All IsAllowed (keep_items json float sort now_ms n vs)
  unfolding keep_items
  keep_items-AreKept now_ms n [] h = (omega arith, tt)
  keep_items-AreKept now_ms n (v ∷ vs) h =
      ground (arith, keep_items-AreKept now_ms n vs h, keep_items-AreKept now_ms (suc n) vs)

  pub load-AreKept :
      (now now_ms : ℤ) (stored : Option json.Json) (f : Feed json.Json)
      → AreKept (load json float sort now now_ms stored f).feed
  unfolding load reorder
  load-AreKept now now_ms stored f =
      let kept =
        keep_items-AreKept now_ms 0
          (elim stored [ none ↦ [] | some v ↦ if json.is_array v then json.elements v else [] ])
          (omega arith) in
      ranked-AreKept now _ (omega arith, kept.1)

  if_AreKept :
      (b : Bool) (items : List (FeedItem json.Json))
      → AreKept items
      → AreKept (if b then items else [])
  if_AreKept true items h = h
  if_AreKept false items h = (omega arith, tt)

  pub from_json-AreKept :
      (now now_ms : ℤ) (arr : json.Json) (remote : ℤ) (f : Feed json.Json)
      → AreKept (from_json_array json float sort now now_ms arr remote f).feed
  unfolding from_json_array reorder
  from_json-AreKept now now_ms arr remote f =
      let kept = keep_items-AreKept now_ms 0 (json.elements arr) (omega arith) in
      rw mark_dirty_feed
        (ranked-AreKept now _ (if_AreKept (json.is_array arr) _ (omega arith, kept.1)))
