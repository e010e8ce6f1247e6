-- ===== src/Domain/Torrent/Magnet.antt =====
-- The percent-encoding of native/domain/torrent.cpp loses nothing.
use rats_search_tui.Base.{
  ℕ, zero, suc, ◌+◌, ◌-◌, ◌*◌, ◌/◌, ◌%◌, ◌<◌, ◌≡◌, ◌≢◌, ==_iff, ◌∙◌, refl, Bool, true, ◌&&◌, [],
  ◌∷◌, Text, arith, leb, ◌==◌, if◌then◌else◌, All, Bool-cases, inl, inr, ap,
}
use rats_search_tui.Domain.Torrent.{percent_encode, is_unreserved, hex_digit}

-- The reader of RFC 3986: `%` and two hexadecimal digits are a byte, and any other byte is itself.
abbrev pub hex_value : ℕ → ℕ
hex_value c = if leb b'A' c then c - 55 else c - b'0'

pub percent_decode : Text → Text
percent_decode [] = []
percent_decode (c ∷ []) = c ∷ []
percent_decode (c ∷ h ∷ []) = c ∷ h ∷ []
percent_decode (c ∷ h ∷ l ∷ s) =
    let plain = c ∷ percent_decode (h ∷ l ∷ s) in
    if c == b'%' then (hex_value h * 16 + hex_value l) ∷ percent_decode s else plain

byte_of_digits : ℕ → Bool
unfolding hex_digit
byte_of_digits c = hex_value (hex_digit (c / 16)) * 16 + hex_value (hex_digit (c % 16)) == c

-- Whether the two digits of each byte below `limit` are read as that byte.
digits_agree : ℕ → Bool
digits_agree zero = true
digits_agree (suc limit) = digits_agree limit && byte_of_digits limit

digits_agree-table : digits_agree 256 ≡ true
unfolding digits_agree byte_of_digits
digits_agree-table = refl

digits_agree_lem : (limit c : ℕ) → c < limit → digits_agree limit ≡ true → byte_of_digits c ≡ true
unfolding digits_agree
digits_agree_lem zero c below agree = absurd (omega arith)
digits_agree_lem (suc limit) c below agree = ground (arith, digits_agree_lem limit c)

decode_plain : (c : ℕ) (s : Text) → c ≢ b'%' → percent_decode (c ∷ s) ≡ c ∷ percent_decode s
unfolding percent_decode
decode_plain c [] h = refl
decode_plain c (d ∷ []) h = refl
decode_plain c (d ∷ e ∷ s) h = ground arith

decode_escaped :
    (c : ℕ) (s : Text)
    → c < 256
    → percent_decode (b'%' ∷ hex_digit (c / 16) ∷ hex_digit (c % 16) ∷ s) ≡ c ∷ percent_decode s
unfolding percent_decode byte_of_digits
decode_escaped c s h =
    ap (λ (n : ℕ). n ∷ percent_decode s)
      ((==_iff _ c).0 (digits_agree_lem 256 c h digits_agree-table))

unreserved-ne : (c : ℕ) → is_unreserved c ≡ true → c ≢ b'%'
unreserved-ne c h = ground arith

-- A reader of the percent-encoding finds in the encoded name of a magnet link the bytes of the
-- name that it was made from, for every text of bytes.
pub percent_decode-encode :
    (s : Text) → All (λ c. c < 256) s → percent_decode (percent_encode s) ≡ s
unfolding percent_encode
percent_decode-encode [] h = unfold percent_decode in refl
percent_decode-encode (c ∷ s) h = elim (Bool-cases (is_unreserved c)) [
  | inl plain ↦ rw plain (
      decode_plain c (percent_encode s) (unreserved-ne c plain)
      ∙ ap (λ (t : Text). c ∷ t) (percent_decode-encode s h.1))
  | inr escaped ↦ rw escaped (
      decode_escaped c (percent_encode s) h.0
      ∙ ap (λ (t : Text). c ∷ t) (percent_decode-encode s h.1))
]
