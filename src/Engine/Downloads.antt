-- ===== src/Engine/Downloads.antt =====
-- native/engine/downloads.h and downloads.cpp: the registry of downloads, and how they are added,
-- paused and removed. The BitTorrent client of librats is a parameter with a state of its own, and
-- there is none while the node has no client. The registry is the std::map by its key, a list in the
-- order of the keys. Whether a text is read as an info-hash is a parameter.
pub mod Client
pub mod Lifecycle
pub mod Poll
pub mod Session
pub mod Registry
pub mod Calls
pub mod Polled
pub mod Loaded
pub mod Histories
pub mod Failures
pub mod Completion
pub mod Deletion
pub mod Deleted
mod Tests
use rats_search_tui.Base.{
  wrap32, wrap64, ℕ, suc, ◌+◌, ◌%◌, ◌^◌, ℤ, pos, ◌==◌, ltb, leb, Bool, true, false, not, ◌&&◌, ◌||◌,
  List, [], ◌∷◌, ◌++◌, Option, none, some, Text, codes, eq_text, to_lower, is_prefix, take, drop,
  all, null, length, FloatOps, if◌then◌else◌,
}
use rats_search_tui.Domain.Torrent.{File, Torrent}
use Client.{ClientOps, TorrentStatus, TorrentInfo}

abbrev pub is_hex_digit : ℕ → Bool
is_hex_digit c =
    (leb b'0' c && leb c b'9') || ((leb b'a' c && leb c b'f') || (leb b'A' c && leb c b'F'))

unfoldable pub is_valid_hash : Text → Bool
is_valid_hash h = (length h == 40) && all is_hex_digit h

-- The text behind the first "btih:", in any case.
unfoldable pub behind_btih : Text → Option Text
behind_btih [] = none
behind_btih (c ∷ s) =
    let later = behind_btih s in
    if is_prefix (codes "btih:") (to_lower (take 5 (c ∷ s))) then some (drop 5 (c ∷ s)) else later

-- An empty text stands for no hash.
unfoldable pub parse_info_hash : Text → Text
parse_info_hash magnet_or_hash =
    if is_valid_hash magnet_or_hash
    then to_lower magnet_or_hash
    else elim (behind_btih magnet_or_hash) [
      | none ↦ []
      | some rest ↦ if is_valid_hash (take 40 rest) then to_lower (take 40 rest) else []
    ]

-- std::map is walked in the order of its keys.
unfoldable pub less_text : Text → Text → Bool
less_text [] [] = false
less_text [] (b ∷ t) = true
less_text (a ∷ s) [] = false
less_text (a ∷ s) (b ∷ t) = ltb a b || ((a == b) && less_text s t)

pub record DownloadFile (D : Type 0) : Type 0 where
  pub path : Text
  pub size : ℤ
  pub index : ℤ
  pub selected : Bool
  pub progress : D

-- The members of the object that progressJson builds.
pub record Progress (D : Type 0) : Type 0 where
  pub downloaded : ℤ
  pub total : ℤ
  pub progress : D
  pub download_speed : ℤ
  pub paused : Bool
  pub completed : Bool
  pub remove_on_done : Bool
  pub time_remaining : ℤ

pub record Download (D : Type 0) : Type 0 where
  pub hash : Text
  pub name : Text
  pub save_path : Text
  pub total_size : ℤ
  pub downloaded_bytes : ℤ
  pub progress : D
  pub download_speed : D
  pub peers_connected : ℤ
  pub paused : Bool
  pub remove_on_done : Bool
  pub ready : Bool
  pub completed : Bool
  pub files : List (DownloadFile D)
  pub last_sampled_bytes : ℤ
  pub last_sampled_ms : ℤ
  pub last_progress : Option (Progress D)

-- `completions` is what the completion callback was called with.
pub record DownloadManager (C D : Type 0) : Type 0 where
  pub client : Option C
  pub default_path : Text
  pub downloads : List (Text × Download D)
  pub running : Bool
  pub revision : ℕ
  pub session_file_path : Text
  pub last_saved_revision : ℕ
  pub ever_saved : Bool
  pub completions : List (Text × Text)

abbrev pub eq_bool : Bool → Bool → Bool
eq_bool a b = if a then b else not b

abbrev pub next_revision : ℕ → ℕ
next_revision n = suc n % 2 ^ 64

module _ {D : Type 0} where
  unfoldable pub find_download : Text → List (Text × Download D) → Option (Download D)
  find_download h [] = none
  find_download h ((k, d) ∷ m) = if eq_text k h then some d else find_download h m

  -- downloads_[h] = d
  unfoldable pub put_download :
      Text → Download D → List (Text × Download D) → List (Text × Download D)
  put_download h d [] = (h, d) ∷ []
  put_download h d ((k, e) ∷ m) =
      let later = (k, e) ∷ put_download h d m in
      if eq_text k h then (h, d) ∷ m else if less_text h k then (h, d) ∷ (k, e) ∷ m else later

  unfoldable pub erase_download : Text → List (Text × Download D) → List (Text × Download D)
  erase_download h [] = []
  erase_download h ((k, e) ∷ m) = if eq_text k h then m else (k, e) ∷ erase_download h m

  unfoldable pub contains_key : Text → List (Text × Download D) → Bool
  contains_key h m = elim (find_download h m) [ none ↦ false | some d ↦ true ]

module _ (float : FloatOps) where
  open float use {Double, lit}

  unfoldable pub default_download : Download Double
  default_download = record {
    hash = [];
    name = [];
    save_path = [];
    total_size = pos 0;
    downloaded_bytes = pos 0;
    progress = lit 0 1;
    download_speed = lit 0 1;
    peers_connected = pos 0;
    paused = false;
    remove_on_done = false;
    ready = false;
    completed = false;
    files = [];
    last_sampled_bytes = pos 0;
    last_sampled_ms = pos 0;
    last_progress = none;
  }

  -- The files of a torrent from its position on, all selected.
  unfoldable pub files_from : ℕ → Double → List File → List (DownloadFile Double)
  files_from i progress [] = []
  files_from i progress (f ∷ files) =
      record {
        path = f.path;
        size = wrap64 f.size;
        index = wrap32 (pos i);
        selected = true;
        progress = progress;
      }
      ∷ files_from (suc i) progress files
