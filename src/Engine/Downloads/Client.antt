-- ===== src/Engine/Downloads/Client.antt =====
-- What native/engine/downloads.cpp uses of the BitTorrent client of librats: a parameter.
use rats_search_tui.Base.{ℤ, Bool, List, Text}
use rats_search_tui.Domain.Torrent.{File}

pub record TorrentStatus (D : Type 0) : Type 0 where
  pub exists : Bool
  pub has_metadata : Bool
  pub is_complete : Bool
  pub name : Text
  pub total_size : ℤ
  pub downloaded : ℤ
  pub progress : D
  pub num_peers : ℤ
  pub files : List File

pub record TorrentInfo : Type 0 where
  pub info_hash_hex : Text
  pub name : Text
  pub total_size : ℤ
  pub files : List File

-- A method returns whether it gave a download, where the code asks for that, and the new state.
pub record ClientOps (D : Type 0) : Type 1 where
  pub State : Type 0
  pub add_magnet : Text → Text → State → Bool × State
  pub add_magnet_resumed : Text → Text → State → Bool × State
  pub add_torrent : TorrentInfo → Text → State → Bool × State
  pub remove_torrent : Text → State → State
  pub save_resume_data : Text → State → State
  pub pause_torrent : Text → State → State
  pub resume_torrent : Text → State → State
  pub torrent_status : Text → State → TorrentStatus D
  -- info_hash_from_hex, as whether it gives one
  pub is_info_hash : Text → Bool
