-- ===== src/Domain/Json/Sample.antt =====
-- A concrete JSON library for the tests: it meets what the program relies on.
use rats_search_tui.Base.{
  ℤ, Bool, true, false, refl, List, [], ◌∷◌, ◌++◌, Option, none, some, Text, eq_text, if◌then◌else◌,
}
use rats_search_tui.Domain.Json.{JsonOps, JsonLaws}

pub data Value : Type 0 where
  nothing : Value
  text : Text → Value
  number : ℤ → Value
  flag : Bool → Value
  fields : Value
  entry : Value → Text → Value → Value
  items : Value
  item : Value → Value → Value

abbrev is_fields : Value → Bool
is_fields fields = true
is_fields (entry o k v) = true
is_fields _ = false

abbrev is_items : Value → Bool
is_items items = true
is_items (item a v) = true
is_items _ = false

abbrev is_text : Value → Bool
is_text (text s) = true
is_text _ = false

abbrev is_flag : Value → Bool
is_flag (flag b) = true
is_flag _ = false

abbrev is_empty : Value → Bool
is_empty nothing = true
is_empty fields = true
is_empty items = true
is_empty _ = false

abbrev look_up : Value → Text → Option Value
look_up (entry o k v) j = if eq_text k j then some v else look_up o j
look_up _ j = none

abbrev range : Value → List Value
range (item a v) = range a ++ v ∷ []
range _ = []

abbrev text_or : Option Value → Text → Text
text_or (some (text s)) d = s
text_or _ d = d

abbrev number_or : Option Value → ℤ → ℤ
number_or (some (number n)) d = n
number_or _ d = d

abbrev flag_or : Option Value → Bool → Bool
flag_or (some (flag b)) d = b
flag_or _ d = d

abbrev pub sample : JsonOps
sample = record {
  Json = Value;
  null = nothing;
  object = fields;
  array = items;
  of_string = text;
  of_int = number;
  of_bool = flag;
  is_object = is_fields;
  is_array = is_items;
  is_string = is_text;
  is_boolean = is_flag;
  empty = is_empty;
  set = entry;
  push_back = item;
  find = look_up;
  elements = range;
  get_string = λ v. text_or (some v) [];
  get_bool = λ v. flag_or (some v) false;
  value_string = λ o k d. text_or (look_up o k) d;
  value_int64 = λ o k d. number_or (look_up o k) d;
  value_int = λ o k d. number_or (look_up o k) d;
  value_bool = λ o k d. flag_or (look_up o k) d;
}

pub sample-laws : JsonLaws sample
sample-laws = record {
  object_is_object = refl;
  set_is_object = λ o k v h. refl;
  find_object = λ k. refl;
  find_set = λ o k j v h. refl;
  value_string_absent = λ o k d h e. rw e;
  value_string_present = λ o k s d h e. rw e;
  value_int64_present = λ o k n d h e r. rw e;
  value_int_present = λ o k n d h e r. rw e;
  value_bool_absent = λ o k d h e. rw e;
  value_bool_present = λ o k b d h e. rw e;
  array_is_array = refl;
  push_is_array = λ a v h. refl;
  elements_array = refl;
  elements_push = λ a v h. refl;
  get_string_of_string = λ s. refl;
  is_string_of_string = λ s. refl;
  get_bool_of_bool = λ b. refl;
  is_boolean_of_bool = λ b. refl;
}
