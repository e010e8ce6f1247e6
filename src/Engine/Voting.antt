-- ===== src/Engine/Voting.antt =====
-- native/engine/voting.h and voting.cpp: up- and down-votes over the distributed store, mirrored
-- onto the index. The log of updates is what the votes-updated callback was called with, newest
-- first. The JSON library, the storage and the index are parameters.
pub mod Once
pub mod Tally
use rats_search_tui.Base.{
  ℕ, ℤ, pos, ◌+ℤ◌, wrap32, eq_ℤ, Bool, true, false, not, ◌&&◌, ◌||◌, List, [], ◌∷◌, ◌++◌, Option,
  none, some, Text, codes, eq_text, length, any, ◌==◌, if◌then◌else◌,
}
use rats_search_tui.Domain.Torrent.{Torrent, SearchHit}
use rats_search_tui.Domain.Json.{JsonOps}
use rats_search_tui.Domain.Codec.{ToJsonOptions, torrent_to_json}
use rats_search_tui.Index.{SearchIndex, lookup_query}
use rats_search_tui.Engine.Store
use rats_search_tui.Engine.Store.{StorageOps, StoredRecord, P2pStore}

pub record VoteCounts : Type 0 where
  pub good : ℤ
  pub bad : ℤ
  pub self_voted : Bool

pub record Voting (S I : Type 0) : Type 0 where
  pub store : P2pStore S
  pub index : I
  pub self_voted_hashes : List Text
  pub updates : List (Text × ℤ × ℤ)

-- What the result callback of vote is called with.
pub data VoteReply : Type 0 where
  failed : Text → VoteReply
  already_voted : ℤ → ℤ → VoteReply
  voted : ℤ → ℤ → Bool → VoteReply

-- What the result callback of getVotes is called with: the counts and the source.
pub data VotesReply : Type 0 where
  failed : Text → VotesReply
  counts : VoteCounts → Text → VotesReply

unfoldable pub is_valid_hash : Text → Bool
is_valid_hash hash = length hash == 40

abbrev increment : ℤ → ℤ
increment n = wrap32 (n +ℤ pos 1)

abbrev pub no_votes : VoteCounts
no_votes = record { good = pos 0; bad = pos 0; self_voted = false }

abbrev pub full_options : ToJsonOptions
full_options = record { include_files = true; include_info = true }

module _ (json : JsonOps) (storage : StorageOps json.Json) (index : SearchIndex json.Json) where
  open json use {Json, object, of_string, set, value_string}

  abbrev pub State : Type 0
  State = Voting storage.Storage index.State

  -- The first hit of a lookup of the hash.
  abbrev pub lookup : Text → State → Option (Torrent Json)
  lookup hash v = elim (index.search_names (lookup_query hash) v.index) [
    | [] ↦ none
    | hit ∷ _ ↦ some hit.torrent
  ]

  unfoldable pub tally : Text → List (StoredRecord Json) → VoteCounts → VoteCounts
  tally peer [] acc = acc
  tally peer (r ∷ rs) acc =
      let vote = value_string r.content (codes "vote") [] in
      tally peer rs (record {
        good = if eq_text vote (codes "good") then increment acc.good else acc.good;
        bad =
            if eq_text vote (codes "good")
            then acc.bad
            else if eq_text vote (codes "bad")
            then increment acc.bad
            else acc.bad;
        self_voted = if eq_text r.peer_id peer then true else acc.self_voted;
      })

  unfoldable pub aggregate : Text → State → VoteCounts
  aggregate hash v =
      if not (is_valid_hash hash) || not (Store.is_available json storage v.store)
      then no_votes
      else tally v.store.our_peer_id
          (Store.find json storage (codes "vote:" ++ hash ++ codes ":") v.store) no_votes

  abbrev pub vote_key : Text → Text → Text
  vote_key hash peer = codes "vote:" ++ hash ++ codes ":" ++ peer

  unfoldable pub has_voted : Text → State → Bool
  has_voted hash v =
      if not (is_valid_hash hash) || not (Store.is_available json storage v.store)
      then false
      else Store.has json storage (vote_key hash v.store.our_peer_id) v.store

  vote_data : Text → Bool → Json → Json
  vote_data hash is_good torrent =
      let o1 = set object (codes "type") (of_string (codes "vote")) in
      let o2 = set o1 (codes "torrentHash") (of_string hash) in
      let o3 = set o2 (codes "vote") (of_string (if is_good then codes "good" else codes "bad")) in
      let o4 = set o3 (codes "_index") (of_string (codes "vote:" ++ hash)) in
      set o4 (codes "_torrent") torrent

  -- onRecordStored, which the store calls for each record
  unfoldable pub on_record_stored : StoredRecord Json → Bool → State → State
  on_record_stored r is_remote v =
      if not is_remote || not (eq_text r.type (codes "vote"))
      then v
      else let hash = value_string r.content (codes "torrentHash") [] in
        if not (is_valid_hash hash)
        then v
        else let votes = aggregate hash v in
          let v' : State = elim (lookup hash v) [
            | none ↦ v
            | some t ↦
                if not (eq_ℤ t.good votes.good) || not (eq_ℤ t.bad votes.bad)
                then record v { index = (index.update_votes hash votes.good votes.bad v.index).1 }
                else v
          ] in
          record v' { updates = (hash, votes.good, votes.bad) ∷ v'.updates }

  abbrev told : Option (StoredRecord Json) → State → State
  told none v = v
  told (some r) v = on_record_stored r false v

  -- Whether the vote was stored, and the object; the times are those of the store's put.
  unfoldable pub store_vote : ℤ → ℤ → Text → Bool → Json → State → Bool × State
  unfolding vote_data
  store_vote now later hash is_good torrent v =
      if not (Store.is_available json storage v.store)
      then (false, v)
      else let ((ok, local), store') =
          Store.put json storage now later (vote_key hash v.store.our_peer_id)
            (vote_data hash is_good torrent) v.store in
        (ok, told local (record v { store = store' }))

  -- Where the store is up its counts are preferred to the columns.
  abbrev preferred : Text → ℤ → ℤ → State → ℤ × ℤ
  preferred hash good bad v =
      if Store.is_available json storage v.store
      then (let votes = aggregate hash v in (votes.good, votes.bad))
      else (good, bad)

  -- vote, once the torrent was found and the hash was not voted on: the store, then the index.
  unfoldable pub cast : ℤ → ℤ → Text → Bool → Torrent Json → State → VoteReply × State
  unfolding store_vote
  cast now later hash is_good t v =
      let (stored, v1) =
        store_vote now later hash is_good (torrent_to_json json t full_options) v in
      let good = if is_good then increment t.good else t.good in
      let bad = if is_good then t.bad else increment t.bad in
      let v2 : State = record v1 {
        index = (index.update_votes hash good bad v1.index).1;
        self_voted_hashes = hash ∷ v1.self_voted_hashes;
      } in
      let (g, b) = preferred hash good bad v2 in
      (voted g b stored, record v2 { updates = (hash, g, b) ∷ v2.updates })

  unfoldable pub vote : ℤ → ℤ → Text → Bool → State → VoteReply × State
  vote now later hash is_good v =
      if not (is_valid_hash hash)
      then (VoteReply.failed (codes "Invalid hash"), v)
      else elim (lookup hash v) [
        | none ↦ (VoteReply.failed (codes "Torrent not found"), v)
        | some t ↦
            if any (eq_text hash) v.self_voted_hashes
              || (Store.is_available json storage v.store && has_voted hash v)
            then (let (g, b) = preferred hash t.good t.bad v in (already_voted g b, v))
            else cast now later hash is_good t v
      ]

  unfoldable pub get_votes : Text → State → VotesReply
  get_votes hash v =
      if not (is_valid_hash hash)
      then VotesReply.failed (codes "Invalid hash")
      else if Store.is_available json storage v.store
      then counts (aggregate hash v) (codes "distributed")
      else elim (lookup hash v) [
        | some t ↦
            counts (record { good = t.good; bad = t.bad; self_voted = false }) (codes "local")
        | none ↦ counts no_votes (codes "none")
      ]
