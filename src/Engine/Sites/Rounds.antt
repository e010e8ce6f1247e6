-- ===== src/Engine/Sites/Rounds.antt =====
-- That the loops of native/engine/site_scraper.cpp over the matches of a pattern come to their end.
use rats_search_tui.Base.{
  ℕ, zero, suc, ◌+◌, ◌≤◌, ◌<◌, ◌≡◌, refl, ◌++◌, some, Text, length, Option-cases, inl, inr, arith,
}
use rats_search_tui.Engine.Sites.Html.{
  Pcre2, Pcre2Laws, Round, last, next, rounds, replace_round, entity_round,
}

-- What a loop gives from a position on, whatever fuel it has beyond what is left of the text.
abbrev pub Gives : (ℕ → Round) → ℕ → ℕ → Text → Type 0
Gives step size pos r = (fuel : ℕ) → suc size < fuel + pos → rounds step fuel pos ≡ some r

-- A round goes on behind its position, and within the text.
abbrev Advances : ℕ → ℕ → Round → Type 0
Advances size pos (last t) = Unit
Advances size pos (next t after) = (pos < after) × (after ≤ size)

module _ (step : ℕ → Round) (size : ℕ) where
  last-Gives : (pos : ℕ) (t : Text) → pos ≤ size → step pos ≡ last t → Gives step size pos t
  unfolding rounds
  last-Gives pos t le e zero h = absurd (omega arith)
  last-Gives pos t le e (suc fuel) h = rw (e, rounds) refl

  next-Gives :
      (pos after : ℕ) (t r : Text)
      → pos ≤ size
      → step pos ≡ next t after
      → pos < after
      → Gives step size after r
      → Gives step size pos (t ++ r)
  unfolding rounds
  next-Gives pos after t r le e lt g zero h = absurd (omega arith)
  next-Gives pos after t r le e lt g (suc fuel) h = rw (e, rounds, g fuel (omega arith)) refl

  module _ (advances : (pos : ℕ) → pos ≤ size → Advances size pos (step pos)) where
    -- `left` bounds what is left of the text; `round` is the round at the position.
    rounds-Gives :
        (left pos : ℕ) (round : Round)
        → step pos ≡ round
        → Advances size pos round
        → size < left + pos
        → pos ≤ size
        → (r : Text) × Gives step size pos r
    rounds-Gives zero pos round e a h le = absurd (omega arith)
    rounds-Gives (suc left) pos (last t) e a h le = (t, last-Gives pos t le e)
    rounds-Gives (suc left) pos (next t after) e (lt, fits) h le =
        let (r, g) =
          rounds-Gives left after (step after) refl (advances after fits) (omega arith) fits in
        (t ++ r, next-Gives pos after t r le e lt g)

    loop-Gives : (r : Text) × Gives step size 0 r
    loop-Gives =
        rounds-Gives (suc size) 0 (step 0) refl (advances 0 (omega arith)) (omega arith)
          (omega arith)

module _ (pcre2 : Pcre2) (laws : Pcre2Laws pcre2) where
  open pcre2 use {Code, exec}

  replace_round-Advances :
      (code : Code) (s to : Text) (pos : ℕ)
      → pos ≤ length s
      → Advances (length s) pos (replace_round pcre2 code s to pos)
  unfolding replace_round
  replace_round-Advances code s to pos le = elim (Option-cases (exec code s pos)) [
    | inl e ↦ rw (e, Advances) tt
    | inr (m, e) ↦
        rw (e, Advances)
          (ground (
            arith,
            laws.from_position code s pos m e,
            laws.ordered code s pos m e,
            laws.in_subject code s pos m e,
          ))
  ]

  entity_round-Advances :
      (code : Code) (s : Text) (pos : ℕ)
      → pos ≤ length s
      → Advances (length s) pos (entity_round pcre2 code s pos)
  unfolding entity_round
  entity_round-Advances code s pos le = elim (Option-cases (exec code s pos)) [
    | inl e ↦ rw (e, Advances) tt
    | inr (m, e) ↦ rw (e, Advances) (ground (arith, laws.in_subject code s pos m e))
  ]

  -- If a match of a pattern starts where the search does or behind it, does not end before it starts
  -- and ends within the text, then the loops of replaceAllRegex and of decodeNumericEntities come to
  -- an end on every text: each has one result, which it gives with any fuel of at least the length of
  -- the text and two rounds.
  pub loops_end :
      (code : Code) (s to : Text)
      → ((r : Text) × Gives (replace_round pcre2 code s to) (length s) 0 r)
        × ((r : Text) × Gives (entity_round pcre2 code s) (length s) 0 r)
  loops_end code s to = (
    loop-Gives (replace_round pcre2 code s to) (length s) (replace_round-Advances code s to),
    loop-Gives (entity_round pcre2 code s) (length s) (entity_round-Advances code s),
  )
