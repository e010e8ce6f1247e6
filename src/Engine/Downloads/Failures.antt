-- ===== src/Engine/Downloads/Failures.antt =====
-- What a failed addition of native/engine/downloads.cpp leaves as it is.
use rats_search_tui.Base.{
  ◌≡◌, refl, Bool, true, false, not, Option, none, some, Text, to_lower, FloatOps, if◌then◌else◌,
}
use rats_search_tui.Domain.Torrent.{Torrent}
use rats_search_tui.Engine.Downloads.Client.{ClientOps, TorrentInfo}
use rats_search_tui.Engine.Downloads.{Download, is_valid_hash, contains_key}
use rats_search_tui.Engine.Downloads.Lifecycle.{
  Manager, enter, add, add_with, add_with_info, add_info_with, add_from_file, add_file_with,
  restore, restore_with,
}

-- The four ways in which a download comes in.
pub data Addition (J D : Type 0) : Type 0 where
  magnet : Text → Text → Addition J D
  known : Torrent J → Text → Addition J D
  file : Option TorrentInfo → Text → Addition J D
  session : Download D → Addition J D

module _ {J : Type 0} (float : FloatOps) (ops : ClientOps float.Double) where
  open float use {Double}

  unfoldable pub attempt : Addition J Double → Manager float ops → Bool × Manager float ops
  attempt (magnet text path) x = add float ops text path x
  attempt (known info path) x = add_with_info float ops info path x
  attempt (file parsed path) x = add_from_file float ops parsed path x
  attempt (session entry) x = restore float ops entry x

module _ (float : FloatOps) (ops : ClientOps float.Double) where
  open float use {Double}

  -- The outcome agrees with the registry: it is the same where the result is false.
  record IsHonest (x : Manager float ops) (r : Bool × Manager float ops) : Type 0 where
    same_downloads : r.0 ≡ false → r.1.downloads ≡ x.downloads
    same_revision : r.0 ≡ false → r.1.revision ≡ x.revision

  fails-IsHonest : (x : Manager float ops) → IsHonest x (false, x)
  fails-IsHonest x = record { same_downloads = λ e. refl; same_revision = λ e. refl }

  if-IsHonest :
      (b : Bool) (x : Manager float ops) (r : Bool × Manager float ops)
      → IsHonest x r
      → IsHonest x (if b then (false, x) else r)
  if-IsHonest true x r h = fails-IsHonest x
  if-IsHonest false x r h = h

  enter-IsHonest :
      (r : Bool × ops.State) (d : Download Double) (x : Manager float ops)
      → IsHonest x (enter float ops r d x)
  unfolding enter
  enter-IsHonest (true, c) d x = record {
    same_downloads = λ e. absurd (cc e);
    same_revision = λ e. absurd (cc e);
  }
  enter-IsHonest (false, c) d x = record { same_downloads = λ e. refl; same_revision = λ e. refl }

  add_with-IsHonest :
      (hash path : Text) (c : Option ops.State) (x : Manager float ops)
      → IsHonest x (add_with float ops hash path c x)
  unfolding add_with
  add_with-IsHonest hash path none x = fails-IsHonest x
  add_with-IsHonest hash path (some c) x =
      if-IsHonest (not (is_valid_hash hash)) x _
        (if-IsHonest (contains_key hash x.downloads) x _ (enter-IsHonest _ _ x))

  add_info_with-IsHonest :
      {J : Type 0} (info : Torrent J) (hash path : Text) (c : Option ops.State)
      (x : Manager float ops)
      → IsHonest x (add_info_with float ops info hash path c x)
  unfolding add_info_with
  add_info_with-IsHonest info hash path none x = fails-IsHonest x
  add_info_with-IsHonest info hash path (some c) x =
      if-IsHonest (contains_key hash x.downloads) x _ (enter-IsHonest _ _ x)

  add_file_with-IsHonest :
      (path : Text) (parsed : Option TorrentInfo) (c : Option ops.State) (x : Manager float ops)
      → IsHonest x (add_file_with float ops path parsed c x)
  unfolding add_file_with
  add_file_with-IsHonest path parsed none x = fails-IsHonest x
  add_file_with-IsHonest path none (some c) x = fails-IsHonest x
  add_file_with-IsHonest path (some info) (some c) x =
      if-IsHonest (contains_key (to_lower info.info_hash_hex) x.downloads) x _
        (enter-IsHonest _ _ x)

  restore_with-IsHonest :
      (path : Text) (entry : Download Double) (c : Option ops.State) (x : Manager float ops)
      → IsHonest x (restore_with float ops path entry c x)
  unfolding restore_with
  restore_with-IsHonest path entry none x = fails-IsHonest x
  restore_with-IsHonest path entry (some c) x =
      if-IsHonest (contains_key (to_lower entry.hash) x.downloads) x _ (enter-IsHonest _ _ x)

  attempt-IsHonest :
      {J : Type 0} (a : Addition J Double) (x : Manager float ops)
      → IsHonest x (attempt float ops a x)
  unfolding attempt add add_with_info add_from_file restore
  attempt-IsHonest (magnet text path) x = add_with-IsHonest _ _ x.client x
  attempt-IsHonest (known info path) x =
      if-IsHonest (not (is_valid_hash info.hash)) x _ (add_info_with-IsHonest info _ _ x.client x)
  attempt-IsHonest (file parsed path) x = add_file_with-IsHonest _ parsed x.client x
  attempt-IsHonest (session entry) x = restore_with-IsHonest _ entry x.client x

  -- An addition by magnet or hash, with what is known of a torrent, by a torrent file or from a
  -- session that returns false leaves the registry and its revision as they were.
  pub failed_addition_keeps :
      {J : Type 0} (a : Addition J Double) (x : Manager float ops)
      → (attempt float ops a x).0 ≡ false
      → ((attempt float ops a x).1.downloads ≡ x.downloads)
        × ((attempt float ops a x).1.revision ≡ x.revision)
  failed_addition_keeps a x e =
      let h = attempt-IsHonest a x in (h.same_downloads e, h.same_revision e)
