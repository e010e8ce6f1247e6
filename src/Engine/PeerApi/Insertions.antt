-- ===== src/Engine/PeerApi/Insertions.antt =====
-- What the messages of other peers do to the index and to the accounts of the replication
-- (native/engine/peer_api.cpp).
use mathlib.Core.List.{append_assoc}
use rats_search_tui.Base.{
  ◌++◌, ◌⊎◌, sym, wrap64, ◌+ℤ◌, All-append, length-append, Bool-cases, inl, inr, ℕ, zero, suc, ◌+◌,
  ◌≡◌, refl, ◌∙◌, ap, ℤ, pos, Bool, true, false, List, [], ◌∷◌, Option, Text, length, All, arith,
  if◌then◌else◌,
}
use rats_search_tui.Domain.Json.{JsonOps}
use rats_search_tui.Domain.Torrent.{Torrent}
use rats_search_tui.Domain.Codec.{torrent_from_json}
use rats_search_tui.Index.{SearchIndex}
use rats_search_tui.Engine.Indexer.{Indexer, handle_discovered, maybe_prune}
use rats_search_tui.Engine.Replication.{Replication}
use rats_search_tui.Engine.PeerApi.{PeerApi}
use rats_search_tui.Engine.PeerApi.Responses.{notified, insert_from_peer, insert_all}

-- The replication after it was notified a number of times.
unfoldable pub tallied : ℕ → Option Replication → Option Replication
tallied zero r = r
tallied (suc n) r = notified (tallied n r)

tallied_zero : (r : Option Replication) → tallied 0 r ≡ r
unfolding tallied
tallied_zero r = refl

tallied_add : (m n : ℕ) (r : Option Replication) → tallied m (tallied n r) ≡ tallied (m + n) r
unfolding tallied
tallied_add zero n r = ap (λ (k : ℕ). tallied k r) (omega arith)
tallied_add (suc m) n r =
    let one_more : suc (m + n) ≡ suc m + n = omega arith in
    ap notified (tallied_add m n r) ∙ ap (λ (k : ℕ). tallied k r) one_more

notified-tallied : (r : Option Replication) → notified r ≡ tallied 1 r
unfolding tallied
notified-tallied r = refl

notified_if :
    (track : Bool) (r : Option Replication)
    → (if track then notified r else r) ≡ tallied (if track then 1 else 0) r
notified_if true r = notified-tallied r
notified_if false r = sym (tallied_zero r)

-- What a message added to the index as new, newest first: torrents with full hashes, for each of which
-- the replication is notified, if the message is one that counts.
pub record TakesIn {I J : Type 0} (counts : Bool) (x x' : PeerApi I J) : Type 0 where
  pub new : List (Text × Text)
  pub logged : x'.indexer.indexed ≡ new ++ x.indexer.indexed
  pub full : All (λ (e : Text × Text). length e.0 ≡ 40) new
  pub counted : x'.replication ≡ tallied (if counts then length new else 0) x.replication

module _ {I J : Type 0} where
  pub nothing-TakesIn :
      (counts : Bool) (x x' : PeerApi I J)
      → x'.indexer.indexed ≡ x.indexer.indexed
      → x'.replication ≡ x.replication
      → TakesIn counts x x'
  nothing-TakesIn counts x x' l r = record {
    new = [];
    logged = l;
    full = tt;
    counted =
        r
        ∙ sym (tallied_zero x.replication)
        ∙ ap (λ (n : ℕ). tallied n x.replication) (ground arith);
  }

  pub then-TakesIn :
      (counts : Bool) (x y z : PeerApi I J)
      → TakesIn counts x y
      → TakesIn counts y z
      → TakesIn counts x z
  then-TakesIn counts x y z f g = record {
    new = g.new ++ f.new;
    logged =
        g.logged
        ∙ ap (λ (l : List (Text × Text)). g.new ++ l) f.logged
        ∙ sym (append_assoc g.new f.new x.indexer.indexed);
    full = All-append (λ (e : Text × Text). length e.0 ≡ 40) g.new f.new g.full f.full;
    counted =
        g.counted
        ∙ ap (tallied (if counts then length g.new else 0)) f.counted
        ∙ tallied_add (if counts then length g.new else 0) (if counts then length f.new else 0)
            x.replication
        ∙ ap (λ (n : ℕ). tallied n x.replication) (ground (arith, length-append g.new f.new));
  }

module _ (json : JsonOps) (index : SearchIndex json.Json)
    (classify : Torrent json.Json → Torrent json.Json)
    (rejection_reason : Torrent json.Json → Text) where
  open json use {Json}

  maybe_prune_indexed : (i : Indexer index.State) → (maybe_prune index i).indexed ≡ i.indexed
  unfolding maybe_prune
  maybe_prune_indexed i = ground arith

  handle_discovered_logs :
      (t : Torrent Json) (i : Indexer index.State)
      → let r = handle_discovered index classify rejection_reason t i in
        r.1.indexed
        ≡ (if r.0 then ((classify t).hash, (classify t).name) ∷ i.indexed else i.indexed)
  unfolding handle_discovered
  handle_discovered_logs t i =
      let i' : Indexer index.State = record i {
        index = (index.upsert (classify t) i.index).1;
        record_count = wrap64 (i.record_count +ℤ pos 1);
      } in
      ground (arith, maybe_prune_indexed i')

  module _ (keeps : (t : Torrent json.Json) → (classify t).hash ≡ t.hash) where
    insert_from_peer_cases :
        (now_ms : ℤ) (obj : Json) (track : Bool) (x : PeerApi index.State Json)
        → let t = classify (torrent_from_json json now_ms obj) in
          let x' = (insert_from_peer json index classify rejection_reason now_ms obj track x).1 in
          ((x'.indexer.indexed ≡ x.indexer.indexed) × (x'.replication ≡ x.replication))
          ⊎ ((x'.indexer.indexed ≡ (t.hash, t.name) ∷ x.indexer.indexed)
              × (length t.hash ≡ 40)
              × (x'.replication ≡ (if track then notified x.replication else x.replication)))
    unfolding insert_from_peer
    insert_from_peer_cases now_ms obj track x =
        let t = torrent_from_json json now_ms obj in
        ground (arith, handle_discovered_logs t x.indexer, ap length (keeps t))

    pub insert_from_peer-TakesIn :
        (now_ms : ℤ) (obj : Json) (track : Bool) (x : PeerApi index.State Json)
        → TakesIn track x
            (insert_from_peer json index classify rejection_reason now_ms obj track x).1
    insert_from_peer-TakesIn now_ms obj track x =
        let t = classify (torrent_from_json json now_ms obj) in
        let x' = (insert_from_peer json index classify rejection_reason now_ms obj track x).1 in
        elim (insert_from_peer_cases now_ms obj track x) [
          | inl (l, r) ↦ nothing-TakesIn track x x' l r
          | inr (l, n, r) ↦ record {
            new = (t.hash, t.name) ∷ [];
            logged = l;
            full = (n, tt);
            counted = r ∙ notified_if track x.replication;
          }
        ]

    pub insert_all-TakesIn :
        (now_ms : ℤ) (vs : List Json) (track : Bool) (x : PeerApi index.State Json)
        → TakesIn track x (insert_all json index classify rejection_reason now_ms vs track x)
    unfolding insert_all
    insert_all-TakesIn now_ms [] track x = nothing-TakesIn track x x refl refl
    insert_all-TakesIn now_ms (v ∷ vs) track x =
        let y = (insert_from_peer json index classify rejection_reason now_ms v track x).1 in
        let first = insert_from_peer-TakesIn now_ms v track x in
        elim (Bool-cases (json.is_object v)) [
          | inl e ↦ rw e (
              then-TakesIn track x y
                (insert_all json index classify rejection_reason now_ms vs track y) first
                (insert_all-TakesIn now_ms vs track y))
          | inr e ↦ rw e (insert_all-TakesIn now_ms vs track x)
        ]
