-- ===== src/Domain/Codec/Members.antt =====
-- Members that were set on a JSON object are read at their types.
use rats_search_tui.Base.{ℤ, ◌≡◌, ◌∙◌, Bool, true, List, Option, none, some, Text}
use rats_search_tui.Domain.Json.{JsonOps, JsonLaws, IsInt32, IsInt64}
use rats_search_tui.Domain.Codec.{set_all}
use rats_search_tui.Domain.Codec.Files.{last_value, set_all-is_object, find-set_all-object}

module _ (json : JsonOps) (ps : List (Text × json.Json)) where
  abbrev pub made : json.Json
  made = set_all json json.object ps

module _ (json : JsonOps) (laws : JsonLaws json) (ps : List (Text × json.Json)) where
  open json use {Json, object, of_string, of_int, of_bool, is_object, find}

  abbrev pub value : Text → Option Json
  value k = last_value json laws k none ps

  pub is_obj : is_object (made json ps) ≡ true
  is_obj = set_all-is_object json laws ps object laws.object_is_object

  pub look : (k : Text) → find (made json ps) k ≡ value k
  look k = find-set_all-object json laws ps k

  pub read_text :
      (k s d : Text) → value k ≡ some (of_string s) → json.value_string (made json ps) k d ≡ s
  read_text k s d e = laws.value_string_present (made json ps) k s d is_obj (look k ∙ e)

  pub read_int :
      (k : Text) (n d : ℤ)
      → value k ≡ some (of_int n)
      → IsInt32 n
      → json.value_int (made json ps) k d ≡ n
  read_int k n d e h = laws.value_int_present (made json ps) k n d is_obj (look k ∙ e) h

  pub read_int64 :
      (k : Text) (n d : ℤ)
      → value k ≡ some (of_int n)
      → IsInt64 n
      → json.value_int64 (made json ps) k d ≡ n
  read_int64 k n d e h = laws.value_int64_present (made json ps) k n d is_obj (look k ∙ e) h

  pub read_flag :
      (k : Text) (b d : Bool) → value k ≡ some (of_bool b) → json.value_bool (made json ps) k d ≡ b
  read_flag k b d e = laws.value_bool_present (made json ps) k b d is_obj (look k ∙ e)
