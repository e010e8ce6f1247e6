-- ===== src/Engine/Indexer/Accepted.antt =====
-- The indexer of native/engine/indexer.cpp with the classifier and the filter policy that it calls.
use rats_search_tui.Base.{
  ◌≢◌, ◌↔◌, ◌≡◌, ◌∙◌, sym, refl, Bool, true, false, List, Text, null, Bool-cases, inl, inr, arith,
  FloatOps,
}
use rats_search_tui.Domain.Torrent.{Torrent}
use rats_search_tui.Domain.Json.{JsonOps}
use rats_search_tui.Domain.Classifier.{ClassifierData, classify_torrent}
use rats_search_tui.Domain.Filter.{
  FilterSettings, RegexOps, compile_naming_regex, rejection_reason, accepts,
}
use rats_search_tui.Domain.Filter.Accepts.{IsAcceptable, accepts_iff}
use rats_search_tui.Index.{SearchIndex}
use rats_search_tui.Engine.Indexer.{Indexer, handle_discovered, is_known_hash}

true-ne-false : true ≢ false
true-ne-false e = cc

module _ (json : JsonOps) (regex : RegexOps) (float : FloatOps)
    (walk : List (Text × float.Double) → List (Text × float.Double)) (d : ClassifierData)
    (s : FilterSettings) (index : SearchIndex json.Json) where
  unfoldable pub discover : Torrent json.Json → Indexer index.State → Bool × Indexer index.State
  discover t x =
      handle_discovered index (classify_torrent float walk d)
        (rejection_reason json regex (compile_naming_regex regex s)) t x

  -- A torrent that the settings do not allow, once it is classified, changes nothing in the indexer
  -- and its index, and is not reported as new.
  pub discover_rejects :
      (t : Torrent json.Json) (x : Indexer index.State)
      → ¬ IsAcceptable json regex s (classify_torrent float walk d t)
      → discover t x ≡ (false, x)
  unfolding discover handle_discovered accepts
  discover_rejects t x h =
      let c = classify_torrent float walk d t in
      elim (Bool-cases (null (rejection_reason json regex (compile_naming_regex regex s) c))) [
        | inl e ↦ absurd (h ((accepts_iff json regex s c).0 e))
        | inr e ↦ rw e refl
      ]

  -- A torrent is reported as new exactly if the settings allow it, once it is classified, the index
  -- did not have its hash, and the insertion succeeds.
  pub discover_iff :
      (t : Torrent json.Json) (x : Indexer index.State)
      → let c = classify_torrent float walk d t in
        ((discover t x).0 ≡ true) ↔ (
          IsAcceptable json regex s c
          × (is_known_hash index c.hash x ≡ false)
          × ((index.upsert c x.index).0 ≡ true))
  unfolding discover handle_discovered accepts
  discover_iff t x =
      let c = classify_torrent float walk d t in
      let accepted = accepts_iff json regex s c in
      elim (Bool-cases (null (rejection_reason json regex (compile_naming_regex regex s) c))) [
        | inl e ↦ rw e (ground (arith, accepted.0 e))
        | inr e ↦ rw e (λ q. cc, λ ok. absurd (true-ne-false (sym (accepted.1 ok.0) ∙ e)))
      ]
