-- ===== src/Engine/Swarm/Best.antt =====
-- The result that native/engine/swarm_scraper.cpp merges from the trackers of a scrape.
use rats_search_tui.Base.{
  ℕ, suc, ◌≡◌, refl, ◌∙◌, ap, ◌⊎◌, inl, ◌≤ℤ◌, true, List, [], ◌∷◌, ◌++◌, Option, none, some, All,
  Any, length, arith,
}
use rats_search_tui.Engine.Swarm.{
  AnnounceResult, Scrape, Swarm, merge, heard, settle, end_task, finish_announce, announces, Event,
  handle, run,
}

-- The result takes the answer into account: an answer that succeeded has no more seeders.
abbrev pub Covers : AnnounceResult → Option AnnounceResult → Type 0
Covers r none = Unit
Covers r (some one) = one.success ≡ true → (r.success ≡ true) × (one.seeders ≤ℤ r.seeders)

-- A result is the best of the answers: it is one of them that succeeded, or the first result where
-- none did, and covers them all.
pub record IsBest (first : AnnounceResult) (ones : List (Option AnnounceResult))
    (r : AnnounceResult) : Type 0 where
  pub answered : (r ≡ first) ⊎ (Any (λ o. o ≡ some r) ones × (r.success ≡ true))
  pub greatest : All (Covers r) ones

abbrev heard_all : List (Option AnnounceResult) → AnnounceResult → AnnounceResult
heard_all [] best = best
heard_all (one ∷ ones) best = heard_all ones (heard one best)

-- The first task of the scraper ends, a number of times, with these answers.
abbrev pub announced : List (Option AnnounceResult) → List Event
announced [] = []
announced (one ∷ ones) = announces 0 one ∷ announced ones

heard-Covers :
    (o one : Option AnnounceResult) (best : AnnounceResult)
    → Covers best o
    → Covers (heard one best) o
unfolding heard merge
heard-Covers none one best h = tt
heard-Covers (some a) none best h = h
heard-Covers (some a) (some b) best h = ground arith

heard_self : (one : Option AnnounceResult) (best : AnnounceResult) → Covers (heard one best) one
unfolding heard merge
heard_self none best = tt
heard_self (some a) best = ground arith

heard_all-Covers :
    (ones : List (Option AnnounceResult)) (o : Option AnnounceResult) (best : AnnounceResult)
    → Covers best o
    → Covers (heard_all ones best) o
heard_all-Covers [] o best h = h
heard_all-Covers (one ∷ ones) o best h =
    heard_all-Covers ones o (heard one best) (heard-Covers o one best h)

heard_all-greatest :
    (ones : List (Option AnnounceResult)) (best : AnnounceResult)
    → All (Covers (heard_all ones best)) ones
heard_all-greatest [] best = tt
heard_all-greatest (one ∷ ones) best = (
  heard_all-Covers ones one (heard one best) (heard_self one best),
  heard_all-greatest ones (heard one best),
)

heard_answered :
    (one : Option AnnounceResult) (best : AnnounceResult)
    → (heard one best ≡ best) ⊎ ((one ≡ some (heard one best)) × ((heard one best).success ≡ true))
unfolding heard merge
heard_answered none best = inl refl
heard_answered (some a) best = ground arith

heard_all-answered :
    (ones : List (Option AnnounceResult)) (best : AnnounceResult)
    → (heard_all ones best ≡ best)
      ⊎ (Any (λ o. o ≡ some (heard_all ones best)) ones × ((heard_all ones best).success ≡ true))
heard_all-answered [] best = inl refl
heard_all-answered (one ∷ ones) best =
    ground (arith, heard_all-answered ones (heard one best), heard_answered one best)

all-IsBest :
    (ones : List (Option AnnounceResult)) (best : AnnounceResult)
    → IsBest best ones (heard_all ones best)
all-IsBest ones best = record {
  answered = heard_all-answered ones best;
  greatest = heard_all-greatest ones best;
}

-- The state after the first task of the first scrape has ended.
first_ends :
    (one : Option AnnounceResult) (c : Scrape) (rest : List Scrape) (s : Swarm)
    → s.scrapes ≡ c ∷ rest
    → finish_announce 0 one s ≡ settle c.remaining c.info_hash (heard one c.best) rest s
unfolding finish_announce end_task
first_ends one c rest s e = rw e refl

merged :
    (one : Option AnnounceResult) (ones : List (Option AnnounceResult)) (c : Scrape)
    (rest : List Scrape) (s : Swarm)
    → s.scrapes ≡ c ∷ rest
    → c.remaining ≡ suc (length ones)
    → let s' = run s (announced (one ∷ ones)) in
      (s'.scrapes ≡ rest)
      × (s'.reports ≡ s.reports ++ (c.info_hash, heard_all (one ∷ ones) c.best) ∷ [])
unfolding run handle settle
merged one [] c rest s e n = rw (first_ends one c rest s e, n) (refl, refl)
merged one (next ∷ ones) c rest s e n =
    let c' : Scrape = record c { best = heard one c.best; remaining = suc (length ones) } in
    let ends =
      first_ends one c rest s e
      ∙ ap (λ (k : ℕ). settle k c.info_hash (heard one c.best) rest s) n in
    let (there, told) =
      merged next ones c' rest (finish_announce 0 one s) (ap (λ (x : Swarm). x.scrapes) ends)
        refl in
    (
      there,
      rw told (
          ap (λ (x : Swarm). x.reports ++ (c.info_hash, heard_all (one ∷ next ∷ ones) c.best) ∷ [])
            ends),
    )

-- Where the announces that a scrape at the head of the list still waits for end one after the other,
-- with an answer, a failure or given up for the shutdown, and nothing else happens in between, the
-- scrape is over and exactly one result of it waits for the engine loop: an answer that succeeded and has
-- the most seeders of those that did, or the initial result where none did.
pub scrape_reports_best :
    (one : Option AnnounceResult) (ones : List (Option AnnounceResult)) (c : Scrape)
    (rest : List Scrape) (s : Swarm)
    → s.scrapes ≡ c ∷ rest
    → c.remaining ≡ suc (length ones)
    → (r : AnnounceResult) × IsBest c.best (one ∷ ones) r
      × ((run s (announced (one ∷ ones))).scrapes ≡ rest)
      × ((run s (announced (one ∷ ones))).reports ≡ s.reports ++ (c.info_hash, r) ∷ [])
scrape_reports_best one ones c rest s e n =
    let (over, told) = merged one ones c rest s e n in
    (heard_all (one ∷ ones) c.best, all-IsBest (one ∷ ones) c.best, over, told)
