-- ===== src/Engine/Voting/Tally.antt =====
-- The counts of native/engine/voting.cpp against counts over the records.
use rats_search_tui.Base.{
  ℕ, ◌+◌, ◌^◌, ◌<◌, pos, ◌+ℤ◌, wrap32, ◌≡◌, ap, ◌∙◌, Bool, true, false, ◌||◌, List, [], ◌∷◌, Text,
  any, eq_text, eq_text→eq, codes, length, arith, if◌then◌else◌,
}
use rats_search_tui.Domain.Json.{JsonOps}
use rats_search_tui.Index.{SearchIndex}
use rats_search_tui.Engine.Store.{StorageOps, StoredRecord}
use rats_search_tui.Engine.Voting.{VoteCounts, tally, no_votes}

module _ (json : JsonOps) (storage : StorageOps json.Json) (index : SearchIndex json.Json) where
  abbrev pub votes_for : Text → List (StoredRecord json.Json) → ℕ
  votes_for word [] = 0
  votes_for word (r ∷ rs) =
      (if eq_text (json.value_string r.content (codes "vote") []) word then 1 else 0)
      + votes_for word rs

  not_both : (s : Text) → eq_text s (codes "good") ≡ true → eq_text s (codes "bad") ≡ false
  not_both s h = rw (eq_text→eq s (codes "good") h)

  step :
      (word : Text) (g b : ℕ) (own s : Bool)
      → g + 1 < 2 ^ 31
      → b + 1 < 2 ^ 31
      → ◌≡◌ {A = VoteCounts}
          (record {
            good = if eq_text word (codes "good") then wrap32 (pos g +ℤ pos 1) else pos g;
            bad =
                if eq_text word (codes "good")
                then pos b
                else if eq_text word (codes "bad")
                then wrap32 (pos b +ℤ pos 1)
                else pos b;
            self_voted = if own then true else s;
          })
          (record {
            good = pos (g + (if eq_text word (codes "good") then 1 else 0));
            bad = pos (b + (if eq_text word (codes "bad") then 1 else 0));
            self_voted = own || s;
          })
  unfolding wrap32 ◌+ℤ◌
  step word g b own s hg hb = ground (arith, not_both word)

  regroup :
      (g x m b y n : ℕ) (own others s : Bool)
      → ◌≡◌ {A = VoteCounts}
          (record {
            good = pos (g + x + m);
            bad = pos (b + y + n);
            self_voted = others || (own || s);
          })
          (record {
            good = pos (g + (x + m));
            bad = pos (b + (y + n));
            self_voted = (own || others) || s;
          })
  regroup g x m b y n own others s = ground arith

  tally_from :
      (peer : Text) (rs : List (StoredRecord json.Json)) (g b : ℕ) (s : Bool)
      → g + length rs < 2 ^ 31
      → b + length rs < 2 ^ 31
      → tally json storage index peer rs (record { good = pos g; bad = pos b; self_voted = s })
        ≡ record {
          good = pos (g + votes_for (codes "good") rs);
          bad = pos (b + votes_for (codes "bad") rs);
          self_voted = any (λ r. eq_text r.peer_id peer) rs || s;
        }
  unfolding tally
  tally_from peer [] g b s hg hb = ground arith
  tally_from peer (r ∷ rs) g b s hg hb =
      let word = json.value_string r.content (codes "vote") [] in
      let is_good : ℕ = if eq_text word (codes "good") then 1 else 0 in
      let is_bad : ℕ = if eq_text word (codes "bad") then 1 else 0 in
      ap (tally json storage index peer rs)
        (step word g b (eq_text r.peer_id peer) s (omega arith) (omega arith))
      ∙ tally_from peer rs (g + is_good) (b + is_bad) (eq_text r.peer_id peer || s) (ground arith)
          (ground arith)
      ∙ regroup g is_good _ b is_bad _ (eq_text r.peer_id peer) _ s

  -- Over fewer than 2 ^ 31 records, the counts are the numbers of records that say "good" and
  -- "bad", and the peer has voted exactly if a record is its own.
  pub tally_lem :
      (peer : Text) (rs : List (StoredRecord json.Json))
      → length rs < 2 ^ 31
      → tally json storage index peer rs no_votes ≡ record {
        good = pos (votes_for (codes "good") rs);
        bad = pos (votes_for (codes "bad") rs);
        self_voted = any (λ r. eq_text r.peer_id peer) rs;
      }
  tally_lem peer rs h = tally_from peer rs 0 0 false (omega arith) (omega arith) ∙ ground arith
