-- ===== src/Engine/Sites/Utf8.antt =====
-- What native/engine/site_scraper.cpp encodes as UTF-8 against a decoder of UTF-8.
use mathlib.Core.Path.{subst}
use rats_search_tui.Base.{
  length, ℕ, zero, suc, ◌+◌, ◌-◌, ◌*◌, ◌<◌, ◌≡◌, refl, ◌∙◌, ap, sym, ◌==◌, ltb, Bool, true, false,
  ◌&&◌, List, [], ◌∷◌, ◌++◌, map, Option, none, some, Text, All, get_or, arith, if◌then◌else◌,
  Bool-cases, inl, inr,
}
use rats_search_tui.Engine.Sites.Encoding.{utf8_encode, table, decode_windows1251}

-- The first code point of a text and the text behind it, by the length that the first byte tells.
abbrev pub two : ℕ → Text → Option (ℕ × Text)
two a [] = none
two a (b ∷ s) = some ((a - 0xC0) * 64 + (b - 0x80), s)

abbrev pub three : ℕ → Text → Option (ℕ × Text)
three a [] = none
three a (b ∷ []) = none
three a (b ∷ c ∷ s) = some ((a - 0xE0) * 4096 + (b - 0x80) * 64 + (c - 0x80), s)

abbrev pub four : ℕ → Text → Option (ℕ × Text)
four a [] = none
four a (b ∷ []) = none
four a (b ∷ c ∷ []) = none
four a (b ∷ c ∷ d ∷ s) =
    some ((a - 0xF0) * 262144 + (b - 0x80) * 4096 + (c - 0x80) * 64 + (d - 0x80), s)

abbrev pub first_point : Text → Option (ℕ × Text)
first_point [] = none
first_point (a ∷ s) =
    if ltb a 0x80
    then some (a, s)
    else if ltb a 0xE0
    then two a s
    else if ltb a 0xF0
    then three a s
    else four a s

-- A text that decodes to a list of code points.
abbrev pub Decodes : List ℕ → Text → Type 0
Decodes [] t = t ≡ []
Decodes (c ∷ cs) t = (rest : Text) × (first_point t ≡ some (c, rest)) × Decodes cs rest

pub first_point-utf8_encode :
    (c : ℕ) (rest : Text) → c < 0x110000 → first_point (utf8_encode c ++ rest) ≡ some (c, rest)
unfolding utf8_encode
first_point-utf8_encode c rest h = ground arith

-- The bytes of Windows-1251 by the characters that they stand for, in the order of Unicode: capital and
-- small letters of the Cyrillic alphabets beside the Russian one, and punctuation.
abbrev pub capitals : List (ℕ × ℕ)
capitals =
    (0xA8, 0x0401)
    ∷ (0x80, 0x0402)
    ∷ (0x81, 0x0403)
    ∷ (0xAA, 0x0404)
    ∷ (0xBD, 0x0405)
    ∷ (0xB2, 0x0406)
    ∷ (0xAF, 0x0407)
    ∷ (0xA3, 0x0408)
    ∷ (0x8A, 0x0409)
    ∷ (0x8C, 0x040A)
    ∷ (0x8E, 0x040B)
    ∷ (0x8D, 0x040C)
    ∷ (0xA1, 0x040E)
    ∷ (0x8F, 0x040F)
    ∷ []

abbrev pub small_letters : List (ℕ × ℕ)
small_letters =
    (0xB8, 0x0451)
    ∷ (0x90, 0x0452)
    ∷ (0x83, 0x0453)
    ∷ (0xBA, 0x0454)
    ∷ (0xBE, 0x0455)
    ∷ (0xB3, 0x0456)
    ∷ (0xBF, 0x0457)
    ∷ (0xBC, 0x0458)
    ∷ (0x9A, 0x0459)
    ∷ (0x9C, 0x045A)
    ∷ (0x9E, 0x045B)
    ∷ (0x9D, 0x045C)
    ∷ (0xA2, 0x045E)
    ∷ (0x9F, 0x045F)
    ∷ (0xA5, 0x0490)
    ∷ (0xB4, 0x0491)
    ∷ []

abbrev pub punctuation : List (ℕ × ℕ)
punctuation =
    (0x96, 0x2013)
    ∷ (0x97, 0x2014)
    ∷ (0x91, 0x2018)
    ∷ (0x92, 0x2019)
    ∷ (0x82, 0x201A)
    ∷ (0x93, 0x201C)
    ∷ (0x94, 0x201D)
    ∷ (0x84, 0x201E)
    ∷ (0x86, 0x2020)
    ∷ (0x87, 0x2021)
    ∷ (0x95, 0x2022)
    ∷ (0x85, 0x2026)
    ∷ (0x89, 0x2030)
    ∷ (0x8B, 0x2039)
    ∷ (0x9B, 0x203A)
    ∷ (0x88, 0x20AC)
    ∷ (0xB9, 0x2116)
    ∷ (0x99, 0x2122)
    ∷ []

abbrev pub look_up : ℕ → List (ℕ × ℕ) → ℕ → ℕ
look_up b [] otherwise = otherwise
look_up b ((a, c) ∷ rest) otherwise = if a == b then c else look_up b rest otherwise

-- The characters of Windows-1251: the Cyrillic letters from А to я in the order of Unicode stand from
-- 0xC0 on, and the bytes below that are in none of the lists are those of Unicode.
unfoldable pub unicode : ℕ → ℕ
unicode b =
    if ltb b 0x80
    then b
    else if ltb b 0xC0
    then look_up b (capitals ++ small_letters ++ punctuation) b
    else 0x410 + (b - 0xC0)

-- A test of each entry of a table with its index, from an index on.
holds_from : (ℕ → ℕ → Bool) → ℕ → List ℕ → Bool
holds_from p i [] = true
holds_from p i (c ∷ cs) = p i c && holds_from p (suc i) cs

holds_at :
    (p : ℕ → ℕ → Bool) (i k : ℕ) (cs : List ℕ)
    → holds_from p i cs ≡ true
    → k < length cs
    → p (k + i) (get_or cs k 0) ≡ true
unfolding holds_from
holds_at p i k [] h lt = absurd (omega arith)
holds_at p i zero (c ∷ cs) h lt = ground arith
holds_at p i (suc k) (c ∷ cs) h lt =
    let later = holds_at p (suc i) k cs in
    subst (λ n. p n (get_or cs k 0) ≡ true) (omega arith) (later (ground arith) (omega arith))

-- What the table holds at an index is the character of the byte.
abbrev is_right : ℕ → ℕ → Bool
is_right i c = ltb c 0x110000 && c == unicode (i + 0x80)

all_right : holds_from is_right 0 table ≡ true
unfolding holds_from table unicode
all_right = refl

length-table : length table ≡ 128
unfolding table
length-table = refl

table_lem :
    (b : ℕ)
    → b < 256
    → ltb b 0x80 ≡ false
    → (get_or table (b - 0x80) 0 ≡ unicode b) × (get_or table (b - 0x80) 0 < 0x110000)
table_lem b h e =
    let k = b - 0x80 in
    let right : (is_right k (get_or table k 0) ≡ true) =
      subst (λ n. is_right n (get_or table k 0) ≡ true) (omega arith)
        (holds_at is_right 0 k table all_right (ground (arith, length-table))) in
    let same_byte : (k + 0x80 ≡ b) = ground arith in
    (
      subst (λ n. get_or table k 0 ≡ unicode n) same_byte (ground (arith, right)),
      ground (arith, right),
    )

low_lem : (b : ℕ) → ltb b 0x80 ≡ true → unicode b ≡ b
unfolding unicode
low_lem b e = rw e refl

-- Whatever bytes a page holds, decodeWindows1251 gives a text that a decoder of UTF-8 reads as the
-- characters that these bytes are in Windows-1251, in order and to the end.
pub decode_windows1251-Decodes :
    (page : Text) → All (λ b. b < 256) page → Decodes (map unicode page) (decode_windows1251 page)
unfolding decode_windows1251
decode_windows1251-Decodes [] h = refl
decode_windows1251-Decodes (b ∷ s) h = elim (Bool-cases (ltb b 0x80)) [
  | inl e ↦ (
    decode_windows1251 s,
    rw (e, e) (ap (λ c. some (c, decode_windows1251 s)) (sym (low_lem b e))),
    decode_windows1251-Decodes s h.1,
  )
  | inr e ↦
      let (same, small) = table_lem b h.0 e in
      let rest = decode_windows1251 s in
      (
        rest,
        rw e (
            first_point-utf8_encode (get_or table (b - 0x80) 0) rest small
            ∙ ap (λ c. some (c, rest)) same),
        decode_windows1251-Decodes s h.1,
      )
]
