-- ===== src/Domain/Samples.antt =====
-- A torrent, settings, a library of patterns and one of doubles for the tests.
use rats_search_tui.Base.{
  ℤ, pos, ltb_ℤ, eq_ℤ, true, false, [], ◌∷◌, Option, none, some, Text, codes, contains, FloatOps,
  ◌==◌, if◌then◌else◌,
}
use rats_search_tui.Domain.Content.{ContentType, ContentCategory}
use rats_search_tui.Domain.Torrent.{Torrent}
use rats_search_tui.Domain.Filter.{FilterSettings, RegexOps}
use rats_search_tui.Domain.Json.Sample.{Value, fields, entry, items, item, text}

abbrev pub ubuntu : Torrent Value
ubuntu = record {
  hash = codes "0123456789abcdef0123456789abcdef01234567";
  name = codes "Ubuntu 24.04";
  size = pos 5000;
  files = pos 2;
  piece_length = pos 16384;
  added = pos 1000;
  content_type = ContentType.software;
  content_category = ContentCategory.unknown;
  seeders = pos 3;
  leechers = pos 0;
  completed = pos 0;
  trackers_checked = pos 0;
  good = pos 1;
  bad = pos 0;
  info = entry fields (codes "trackers") (item items (text (codes "RuTracker")));
  file_list = [];
}

-- Patterns that are plain words; one that begins with "(" does not compile.
abbrev pub words : RegexOps
words = record { Code = Text; compile = compile_word; matches = contains }
  where
    compile_word : Text → Option Text
    compile_word [] = some []
    compile_word (c ∷ s) = if c == b'(' then none else some (c ∷ s)

abbrev pub strict : FilterSettings
strict = record {
  max_files = pos 10;
  size_min = pos 100;
  size_max = pos 0;
  adult_filter = true;
  naming_reg_exp = codes "Ubuntu";
  naming_reg_exp_negative = false;
  content_type_filter = codes "video, application";
  tracker_allow = codes "rutracker" ∷ [];
  tracker_deny = codes "other" ∷ [];
  tracker_require_known = true;
}

-- Whole numbers in place of doubles: every score is zero.
abbrev pub whole : FloatOps
whole = record {
  Double = ℤ;
  of_int = λ n. n;
  to_int = λ n. n;
  lit = λ n d. pos n;
  add = λ a b. pos 0;
  sub = λ a b. pos 0;
  mul = λ a b. pos 0;
  div = λ a b. pos 0;
  sqrt = λ a. a;
  less = λ a b. ltb_ℤ a b;
  less_equal = λ a b. true;
  equal = λ a b. eq_ℤ a b;
}
