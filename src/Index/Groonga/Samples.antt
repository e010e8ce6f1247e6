-- ===== src/Index/Groonga/Samples.antt =====
-- A store with fixed replies, for the tests of native/index/groonga_index.cpp.
use rats_search_tui.Base.{
  ℤ, Bool, true, false, [], ◌∷◌, Option, none, some, Text, codes, eq_text, is_prefix, FloatOps,
  if◌then◌else◌,
}
use rats_search_tui.Domain.Json.Sample.{sample, Value, nothing, number, text, flag, entry}
use rats_search_tui.Domain.Samples.{whole}
use rats_search_tui.Index.Groonga.Client.{GroongaOps, Reply}

-- Times that are kept in milliseconds.
abbrev pub exact : FloatOps
exact = record whole { mul = λ a b. a; div = λ a b. a }

abbrev pub text_in : Value → Option Text
text_in (text s) = some s
text_in _ = none

abbrev pub number_in : Value → Option ℤ
number_in (number n) = some n
number_in _ = none

abbrev pub without : Value → Text → Value
without (entry o k v) j = if eq_text k j then without o j else entry (without o j) k v
without o j = o

abbrev pub reply : Text → Reply
reply s = record { sent = true; receives = some (record { bytes = s; more = false }) ∷ [] }

-- A store whose selects are answered by fixed values. Its state is whether anything was written.
abbrev pub store : Value → Value → Value → GroongaOps sample exact
store torrents files info = record {
  State = Bool;
  run = answer;
  exists = λ name s. true;
  is_null = λ v. is_nothing v;
  as_string = text_in;
  as_int64 = number_in;
  as_int = number_in;
  as_double = number_in;
  of_double = number;
  dump = λ v. codes "I";
  parse = meaning;
  erase = without;
  members = λ v. [];
  llround = λ x. x;
  freed = λ rows. [];
}
  where
    answer : Text → Bool → Reply × Bool
    answer command s =
        if is_prefix (codes "select --table Torrents") command
        then (reply (codes "T"), s)
        else if is_prefix (codes "select --table Files") command
        then (reply (codes "F"), s)
        else (reply (codes "1"), true)

    is_nothing : Value → Bool
    is_nothing nothing = true
    is_nothing _ = false

    meaning : Text → Option Value
    meaning s =
        if eq_text s (codes "T")
        then some torrents
        else if eq_text s (codes "F")
        then some files
        else if eq_text s (codes "I")
        then some info
        else some (flag true)
