-- ===== src/Base/Maps.antt =====
-- Maps with texts as keys (`std::unordered_map<std::string, V>`), as lists of pairs.
use Prim.Native.Nat.{suc}
use mathlib.Core.Path.{◌≡◌, refl}
use mathlib.Core.Bool.{Bool, true, false}
use mathlib.Core.Option.{Option, none, some}
use mathlib.Core.List.{List, [], ◌∷◌}
use native.Mathlib.Omega.{arith}
use rats_search_tui.Base.Tests.{if◌then◌else◌}
use rats_search_tui.Base.Lists.{length}
use rats_search_tui.Base.Bytes.{Text, eq_text}

module _ {V : Type 0} where
  unfoldable pub find_key : Text → List (Text × V) → Option V
  find_key k [] = none
  find_key k ((j, v) ∷ m) = if eq_text j k then some v else find_key k m

  -- m[k] = v
  unfoldable pub put_key : Text → V → List (Text × V) → List (Text × V)
  put_key k v [] = (k, v) ∷ []
  put_key k v ((j, w) ∷ m) = if eq_text j k then (j, v) ∷ m else (j, w) ∷ put_key k v m

  unfoldable pub erase_key : Text → List (Text × V) → List (Text × V)
  erase_key k [] = []
  erase_key k ((j, v) ∷ m) = if eq_text j k then m else (j, v) ∷ erase_key k m

  abbrev pub is_some : Option V → Bool
  is_some none = false
  is_some (some v) = true

  -- A key that is there keeps the size, and a new one adds one.
  pub length-put_key :
      (k : Text) (v : V) (m : List (Text × V))
      → length (put_key k v m) ≡ (if is_some (find_key k m) then length m else suc (length m))
  unfolding put_key find_key
  length-put_key k v [] = refl
  length-put_key k v ((j, w) ∷ m) = ground (arith, length-put_key k v m)

  pub length-erase_key :
      (k : Text) (m : List (Text × V))
      → is_some (find_key k m) ≡ true
      → suc (length (erase_key k m)) ≡ length m
  unfolding erase_key find_key
  length-erase_key k [] h = cc
  length-erase_key k ((j, w) ∷ m) h = ground (arith, length-erase_key k m)
