-- ===== src/Domain/Torrent.antt =====
-- native/domain/torrent.h and torrent.cpp: files, torrents and search hits. `J` is the type of the
-- JSON library's values, which is not part of the repository.
pub mod Magnet
use rats_search_tui.Base.{
  ℕ, zero, suc, ◌/◌, ◌%◌, ℤ, Bool, ◌&&◌, ◌||◌, List, [], ◌∷◌, ◌++◌, Text, codes, is_alnum,
  is_xdigit, length, all, ◌==◌, if◌then◌else◌,
}
use rats_search_tui.Domain.Content.{ContentType, ContentCategory}

pub record File : Type 0 where
  pub path : Text
  pub size : ℤ

pub record Torrent (J : Type 0) : Type 0 where
  pub hash : Text
  pub name : Text
  pub size : ℤ
  pub files : ℤ
  pub piece_length : ℤ
  pub added : ℤ
  pub content_type : ContentType
  pub content_category : ContentCategory
  pub seeders : ℤ
  pub leechers : ℤ
  pub completed : ℤ
  pub trackers_checked : ℤ
  pub good : ℤ
  pub bad : ℤ
  pub info : J
  pub file_list : List File

pub record SearchHit (J : Type 0) : Type 0 where
  pub torrent : Torrent J
  pub from_file_match : Bool
  pub matching_paths : List Text
  pub source_peer_id : Text
  pub remote : Bool
  pub feed_date : ℤ

abbrev pub hash_length : ℕ
hash_length = 40

unfoldable pub is_valid : {J : Type 0} → Torrent J → Bool
is_valid t = length t.hash == hash_length && all is_xdigit t.hash

abbrev pub is_unreserved : ℕ → Bool
is_unreserved c = is_alnum c || c == b'-' || c == b'_' || c == b'.' || c == b'~'

-- An entry of the array "0123456789ABCDEF".
unfoldable pub hex_digit : ℕ → ℕ
hex_digit n = entry n (codes "0123456789ABCDEF")
  where
    entry : ℕ → Text → ℕ
    entry i [] = 0
    entry zero (c ∷ s) = c
    entry (suc i) (c ∷ s) = entry i s

unfoldable pub percent_encode : Text → Text
unfolding hex_digit
percent_encode [] = []
percent_encode (c ∷ s) =
    (if is_unreserved c then c ∷ [] else b'%' ∷ hex_digit (c / 16) ∷ hex_digit (c % 16) ∷ [])
    ++ percent_encode s

unfoldable pub magnet_link : {J : Type 0} → Torrent J → Text
magnet_link t = codes "magnet:?xt=urn:btih:" ++ t.hash ++ codes "&dn=" ++ percent_encode t.name
