-- ===== src/Domain/Json.antt =====
-- The JSON values of the librats library, which the repository takes as a submodule: what the
-- program calls on them, and what it relies on. Both are parameters of the modules that use them.
pub mod Sample
pub mod Arrays
pub mod Texts
use rats_search_tui.Base.{
  ℕ, ◌-◌, ◌^◌, ℤ, pos, negsuc, ◌≤ℤ◌, eq_text, if◌then◌else◌, Bool, true, false, ◌≡◌, ◌≢◌, List, [],
  ◌∷◌, ◌++◌, Option, none, some, Text,
}

pub record JsonOps : Type 1 where
  pub Json : Type 0
  -- Json(), Json::object() and Json::array()
  pub null : Json
  pub object : Json
  pub array : Json
  pub of_string : Text → Json
  pub of_int : ℤ → Json
  pub of_bool : Bool → Json
  pub is_object : Json → Bool
  pub is_array : Json → Bool
  pub is_string : Json → Bool
  pub is_boolean : Json → Bool
  pub empty : Json → Bool
  -- obj[key] = value and arr.push_back(value)
  pub set : Json → Text → Json → Json
  pub push_back : Json → Json → Json
  -- as_object().find(key), and the range of an array
  pub find : Json → Text → Option Json
  pub elements : Json → List Json
  pub get_string : Json → Text
  pub get_bool : Json → Bool
  -- value(key, default), at each type that it is called with
  pub value_string : Json → Text → Text → Text
  pub value_int64 : Json → Text → ℤ → ℤ
  pub value_int : Json → Text → ℤ → ℤ
  pub value_bool : Json → Text → Bool → Bool

-- The range of an int and of an int64_t.
abbrev pub IsInt32 : ℤ → Type 0
IsInt32 n = (negsuc (2 ^ 31 - 1) ≤ℤ n) × (n ≤ℤ pos (2 ^ 31 - 1))

abbrev pub IsInt64 : ℤ → Type 0
IsInt64 n = (negsuc (2 ^ 63 - 1) ≤ℤ n) × (n ≤ℤ pos (2 ^ 63 - 1))

-- Objects and arrays behave as such, and a value that was written is read back.
module _ (json : JsonOps) where
  open json use {
    Json, object, array, of_string, of_int, of_bool, is_object, is_array, is_string, set, push_back,
    find, elements, get_string, is_boolean, get_bool, value_string, value_int64, value_int,
    value_bool,
  }

  pub record JsonLaws : Type 0 where
    pub object_is_object : is_object object ≡ true
    pub set_is_object :
        (o : Json) (k : Text) (v : Json) → is_object o ≡ true → is_object (set o k v) ≡ true
    pub find_object : (k : Text) → find object k ≡ none
    pub find_set :
        (o : Json) (k j : Text) (v : Json)
        → is_object o ≡ true
        → find (set o k v) j ≡ (if eq_text k j then some v else find o j)
    pub value_string_absent :
        (o : Json) (k d : Text) → is_object o ≡ true → find o k ≡ none → value_string o k d ≡ d
    pub value_string_present :
        (o : Json) (k s d : Text)
        → is_object o ≡ true
        → find o k ≡ some (of_string s)
        → value_string o k d ≡ s
    pub value_int64_present :
        (o : Json) (k : Text) (n d : ℤ)
        → is_object o ≡ true
        → find o k ≡ some (of_int n)
        → IsInt64 n
        → value_int64 o k d ≡ n
    pub value_int_present :
        (o : Json) (k : Text) (n d : ℤ)
        → is_object o ≡ true
        → find o k ≡ some (of_int n)
        → IsInt32 n
        → value_int o k d ≡ n
    pub value_bool_absent :
        (o : Json) (k : Text) (d : Bool)
        → is_object o ≡ true
        → find o k ≡ none
        → value_bool o k d ≡ d
    pub value_bool_present :
        (o : Json) (k : Text) (b d : Bool)
        → is_object o ≡ true
        → find o k ≡ some (of_bool b)
        → value_bool o k d ≡ b
    pub array_is_array : is_array array ≡ true
    pub push_is_array : (a v : Json) → is_array a ≡ true → is_array (push_back a v) ≡ true
    pub elements_array : elements array ≡ []
    pub elements_push :
        (a v : Json) → is_array a ≡ true → elements (push_back a v) ≡ elements a ++ v ∷ []
    pub get_string_of_string : (s : Text) → get_string (of_string s) ≡ s
    pub is_string_of_string : (s : Text) → is_string (of_string s) ≡ true
    pub get_bool_of_bool : (b : Bool) → get_bool (of_bool b) ≡ b
    pub is_boolean_of_bool : (b : Bool) → is_boolean (of_bool b) ≡ true
