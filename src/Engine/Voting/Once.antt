-- ===== src/Engine/Voting/Once.antt =====
-- A hash is voted on once: native/engine/voting.cpp.
use rats_search_tui.Base.{
  ℤ, if◌then◌else◌, codes, ◌≢◌, ◌⊎◌, ◌≡◌, ap, refl, Bool, true, false, List, [], ◌∷◌, Option, none,
  some, Text, any, eq_text, eq_text_refl, arith, inl, inr,
}
use rats_search_tui.Domain.Json.{JsonOps}
use rats_search_tui.Domain.Torrent.{Torrent}
use rats_search_tui.Index.{SearchIndex}
use rats_search_tui.Engine.Store.{StorageOps}
use rats_search_tui.Engine.Store
use rats_search_tui.Domain.Codec.{torrent_to_json}
use rats_search_tui.Engine.Voting.{
  VoteReply, voted, already_voted, State, vote, cast, store_vote, on_record_stored, full_options,
}

module _ (json : JsonOps) (storage : StorageOps json.Json) (index : SearchIndex json.Json) where
  abbrev pub after : VoteReply × State json storage index → State json storage index
  after r = r.1

  -- Votes of one peer: their two times, the hash and the vote.
  abbrev pub Ballot : Type 0
  Ballot = ℤ × ℤ × Text × Bool

  pub vote_all : State json storage index → List Ballot → State json storage index
  vote_all v [] = v
  vote_all v ((now, later, hash, is_good) ∷ bs) =
      vote_all (vote json storage index now later hash is_good v).1 bs

  abbrev pub IsRemembered : Text → State json storage index → Type 0
  IsRemembered hash v = any (eq_text hash) v.self_voted_hashes ≡ true

  -- A vote leaves the object as it is and is not counted, or is cast on the torrent found.
  abbrev Outcome :
      State json storage index
      → (Torrent json.Json → VoteReply × State json storage index)
      → VoteReply × State json storage index
      → Type 0
  Outcome v casts r =
      ((r.1 ≡ v) × ((g b : ℤ) (s : Bool) → r.0 ≢ voted g b s))
      ⊎ ((t : Torrent json.Json) × (r ≡ casts t))

  Outcome-cases :
      (v : State json storage index)
      (casts : Torrent json.Json → VoteReply × State json storage index)
      (columns : Torrent json.Json → ℤ × ℤ) (invalid : Bool) (found : Option (Torrent json.Json))
      (repeated : Bool)
      → Outcome v casts (
          if invalid then (VoteReply.failed (codes "Invalid hash"), v) else elim found [
            | none ↦ (VoteReply.failed (codes "Torrent not found"), v)
            | some t ↦
                if repeated then (let (g, b) = columns t in (already_voted g b, v)) else casts t
          ])
  Outcome-cases v casts columns true found repeated = inl (refl, λ g b s e. cc)
  Outcome-cases v casts columns false none repeated = inl (refl, λ g b s e. cc)
  Outcome-cases v casts columns false (some t) true = inl (refl, λ g b s e. cc)
  Outcome-cases v casts columns false (some t) false = inr (t, refl)

  vote-Outcome :
      (now later : ℤ) (hash : Text) (is_good : Bool) (v : State json storage index)
      → Outcome v
          (λ t. cast json storage index now later hash is_good t v)
          (vote json storage index now later hash is_good v)
  unfolding vote
  vote-Outcome now later hash is_good v = Outcome-cases v _ _ _ _ _

  remembered_keeps :
      (now later : ℤ) (hash : Text) (is_good : Bool) (v : State json storage index)
      → IsRemembered hash v
      → (vote json storage index now later hash is_good v).1 ≡ v
  unfolding vote
  remembered_keeps now later hash is_good v r = ground arith

  cast_remembers :
      (now later : ℤ) (hash : Text) (is_good : Bool) (t : Torrent json.Json)
      (v : State json storage index)
      → IsRemembered hash (cast json storage index now later hash is_good t v).1
  unfolding cast
  cast_remembers now later hash is_good t v = rw eq_text_refl refl

  store_vote_keeps :
      (now later : ℤ) (hash : Text) (is_good : Bool) (torrent : json.Json)
      (v : State json storage index)
      → (store_vote json storage index now later hash is_good torrent v).1.self_voted_hashes
        ≡ v.self_voted_hashes
  unfolding store_vote on_record_stored Store.put
  store_vote_keeps now later hash is_good torrent v = ground arith

  cast_grows :
      (now later : ℤ) (hash : Text) (is_good : Bool) (t : Torrent json.Json)
      (v : State json storage index)
      → (cast json storage index now later hash is_good t v).1.self_voted_hashes
        ≡ hash ∷ v.self_voted_hashes
  unfolding cast
  cast_grows now later hash is_good t v =
      ap (λ (hs : List Text). hash ∷ hs)
        (store_vote_keeps now later hash is_good (torrent_to_json json t full_options) v)

  vote-IsRemembered :
      (hash : Text) (now later : ℤ) (other : Text) (is_good : Bool) (v : State json storage index)
      → IsRemembered hash v
      → IsRemembered hash (vote json storage index now later other is_good v).1
  vote-IsRemembered hash now later other is_good v r =
      elim (vote-Outcome now later other is_good v) [
        | inl (e, _) ↦ rw e r
        | inr (t, e) ↦ rw (e, cast_grows now later other is_good t v) (ground arith)
      ]

  vote_all-IsRemembered :
      (hash : Text) (bs : List Ballot) (v : State json storage index)
      → IsRemembered hash v
      → IsRemembered hash (vote_all v bs)
  unfolding vote_all
  vote_all-IsRemembered hash [] v r = r
  vote_all-IsRemembered hash ((now, later, other, is_good) ∷ bs) v r =
      vote_all-IsRemembered hash bs _ (vote-IsRemembered hash now later other is_good v r)

  counted_remembers :
      (now later : ℤ) (hash : Text) (is_good : Bool) (v : State json storage index) (g b : ℤ)
      (s : Bool)
      → (vote json storage index now later hash is_good v).0 ≡ voted g b s
      → IsRemembered hash (vote json storage index now later hash is_good v).1
  counted_remembers now later hash is_good v g b s e =
      elim (vote-Outcome now later hash is_good v) [
        | inl (_, uncounted) ↦ absurd (uncounted g b s e)
        | inr (t, q) ↦ rw q (cast_remembers now later hash is_good t v)
      ]

  -- Once a vote on a hash was counted, no later vote on it changes anything, whatever votes on
  -- other hashes come between and whether or not the store is up: index, store, the hashes that
  -- were voted on and the updates sent stay as they were.
  pub vote_once :
      (now later : ℤ) (hash : Text) (is_good : Bool) (v : State json storage index) (g b : ℤ)
      (s : Bool) (bs : List Ballot) (now' later' : ℤ) (is_good' : Bool)
      → (vote json storage index now later hash is_good v).0 ≡ voted g b s
      → let w = vote_all (vote json storage index now later hash is_good v).1 bs in
        (vote json storage index now' later' hash is_good' w).1 ≡ w
  vote_once now later hash is_good v g b s bs now' later' is_good' e =
      remembered_keeps now' later' hash is_good' _
        (vote_all-IsRemembered hash bs _ (counted_remembers now later hash is_good v g b s e))
