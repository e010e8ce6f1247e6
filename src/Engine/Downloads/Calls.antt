-- ===== src/Engine/Downloads/Calls.antt =====
-- What each call of native/engine/downloads.cpp keeps of the registry.
use mathlib.Core.Path.{subst}
use rats_search_tui.Base.{
  ◌≡◌, refl, sym, Bool, true, false, Option, none, some, Text, to_lower, to_lower_idem, FloatOps,
  Bool-cases, inl, inr, arith,
}
use rats_search_tui.Domain.Torrent.{Torrent}
use rats_search_tui.Engine.Downloads.Client.{ClientOps, TorrentInfo}
use rats_search_tui.Engine.Downloads.{
  eq_bool, Download, is_valid_hash, parse_info_hash, find_download, contains_key,
}
use rats_search_tui.Engine.Downloads.Registry.{
  IsRegistry, put_download-IsRegistry, erase_download-IsRegistry, find_download-IsKeyed,
}
use rats_search_tui.Engine.Downloads.Lifecycle.{
  Manager, resolve_save_path, enter, add, add_with, add_with_info, add_info_with, add_from_file,
  add_file_with, apply_snapshot, reconcile, restored, restore, restore_with, remove,
  set_paused_with, pause, resume, toggle_with, toggle_pause,
}

module _ (float : FloatOps) (ops : ClientOps float.Double) where
  open float use {Double}

  enter-IsRegistry :
      (r : Bool × ops.State) (d : Download Double) (x : Manager float ops)
      → to_lower d.hash ≡ d.hash
      → IsRegistry x.downloads
      → IsRegistry (enter float ops r d x).1.downloads
  unfolding enter
  enter-IsRegistry (true, c) d x e v = put_download-IsRegistry d.hash d x.downloads (refl, e) v
  enter-IsRegistry (false, c) d x e v = v

  add_with-IsRegistry :
      (s path : Text) (c : Option ops.State) (x : Manager float ops)
      → IsRegistry x.downloads
      → IsRegistry (add_with float ops (to_lower s) path c x).1.downloads
  unfolding add_with
  add_with-IsRegistry s path none x v = v
  add_with-IsRegistry s path (some c) x v = elim (Bool-cases (is_valid_hash (to_lower s))) [
    | inr q ↦ rw q v
    | inl q ↦ elim (Bool-cases (contains_key (to_lower s) x.downloads)) [
      | inl k ↦ rw (q, k) v
      | inr k ↦ rw (q, k) (enter-IsRegistry _ _ x (to_lower_idem s) v)
    ]
  ]

  add_info_with-IsRegistry :
      {J : Type 0} (info : Torrent J) (s path : Text) (c : Option ops.State) (x : Manager float ops)
      → IsRegistry x.downloads
      → IsRegistry (add_info_with float ops info (to_lower s) path c x).1.downloads
  unfolding add_info_with
  add_info_with-IsRegistry info s path none x v = v
  add_info_with-IsRegistry info s path (some c) x v =
      elim (Bool-cases (contains_key (to_lower s) x.downloads)) [
        | inl k ↦ rw k v
        | inr k ↦ rw k (enter-IsRegistry _ _ x (to_lower_idem s) v)
      ]

  add_file_with-IsRegistry :
      (path : Text) (parsed : Option TorrentInfo) (c : Option ops.State) (x : Manager float ops)
      → IsRegistry x.downloads
      → IsRegistry (add_file_with float ops path parsed c x).1.downloads
  unfolding add_file_with
  add_file_with-IsRegistry path parsed none x v = v
  add_file_with-IsRegistry path none (some c) x v = v
  add_file_with-IsRegistry path (some info) (some c) x v =
      elim (Bool-cases (contains_key (to_lower info.info_hash_hex) x.downloads)) [
        | inl k ↦ rw k v
        | inr k ↦ rw k (enter-IsRegistry _ _ x (to_lower_idem info.info_hash_hex) v)
      ]

  restored_hash :
      (h path : Text) (entry : Download Double) (c : ops.State)
      → (restored float ops h path entry c).hash ≡ h
  unfolding restored reconcile apply_snapshot
  restored_hash h path entry c = ground arith

  restore_with-IsRegistry :
      (path : Text) (entry : Download Double) (c : Option ops.State) (x : Manager float ops)
      → IsRegistry x.downloads
      → IsRegistry (restore_with float ops path entry c x).1.downloads
  unfolding restore_with
  restore_with-IsRegistry path entry none x v = v
  restore_with-IsRegistry path entry (some c) x v =
      let h = to_lower entry.hash in
      elim (Bool-cases (contains_key h x.downloads)) [
        | inl k ↦ rw k v
        | inr k ↦ rw k (
            enter-IsRegistry _ _ x
              (subst (λ (s : Text). to_lower s ≡ s) (sym (restored_hash h path entry _))
                (to_lower_idem entry.hash))
              v)
      ]

  pub remove-IsRegistry :
      (hash : Text) (keep : Bool) (x : Manager float ops)
      → IsRegistry x.downloads
      → IsRegistry (remove float ops hash keep x).downloads
  unfolding remove
  remove-IsRegistry hash keep x v = elim (Bool-cases (contains_key (to_lower hash) x.downloads)) [
    | inl k ↦ rw k (erase_download-IsRegistry (to_lower hash) x.downloads v)
    | inr k ↦ rw k v
  ]

  set_paused-IsRegistry :
      (b : Bool) (h : Text) (o : Option (Download Double)) (x : Manager float ops)
      → find_download h x.downloads ≡ o
      → IsRegistry x.downloads
      → IsRegistry (set_paused_with float ops b h o x).1.downloads
  unfolding set_paused_with
  set_paused-IsRegistry b h none x e v = v
  set_paused-IsRegistry b h (some d) x e v =
      let w =
        put_download-IsRegistry h (record d { paused = b }) x.downloads
          (find_download-IsKeyed h d x.downloads v e) v in
      elim (Bool-cases (eq_bool b d.paused)) [ inl q ↦ rw q v | inr q ↦ rw q w ]

  pub pause-IsRegistry :
      (hash : Text) (x : Manager float ops)
      → IsRegistry x.downloads
      → IsRegistry (pause float ops hash x).1.downloads
  unfolding pause
  pause-IsRegistry hash x v = set_paused-IsRegistry true (to_lower hash) _ x refl v

  pub resume-IsRegistry :
      (hash : Text) (x : Manager float ops)
      → IsRegistry x.downloads
      → IsRegistry (resume float ops hash x).1.downloads
  unfolding resume
  resume-IsRegistry hash x v = set_paused-IsRegistry false (to_lower hash) _ x refl v

  toggle_with-IsRegistry :
      (h : Text) (o : Option (Download Double)) (x : Manager float ops)
      → IsRegistry x.downloads
      → IsRegistry (toggle_with float ops h o x).1.downloads
  unfolding toggle_with
  toggle_with-IsRegistry h none x v = v
  toggle_with-IsRegistry h (some d) x v = elim (Bool-cases d.paused) [
    | inl q ↦ rw q (resume-IsRegistry h x v)
    | inr q ↦ rw q (pause-IsRegistry h x v)
  ]

  pub toggle_pause-IsRegistry :
      (hash : Text) (x : Manager float ops)
      → IsRegistry x.downloads
      → IsRegistry (toggle_pause float ops hash x).1.downloads
  unfolding toggle_pause
  toggle_pause-IsRegistry hash x v = toggle_with-IsRegistry (to_lower hash) _ x v

  pub add_with_info-IsRegistry :
      {J : Type 0} (info : Torrent J) (path : Text) (x : Manager float ops)
      → IsRegistry x.downloads
      → IsRegistry (add_with_info float ops info path x).1.downloads
  unfolding add_with_info
  add_with_info-IsRegistry info path x v = elim (Bool-cases (is_valid_hash info.hash)) [
    | inl q ↦
        rw q (
          add_info_with-IsRegistry info info.hash (resolve_save_path float ops path x) x.client x v)
    | inr q ↦ rw q v
  ]

  pub add-IsRegistry :
      (magnet path : Text) (x : Manager float ops)
      → IsRegistry x.downloads
      → IsRegistry (add float ops magnet path x).1.downloads
  unfolding add
  add-IsRegistry magnet path x v =
      add_with-IsRegistry (parse_info_hash magnet) (resolve_save_path float ops path x) x.client x v

  pub add_from_file-IsRegistry :
      (parsed : Option TorrentInfo) (path : Text) (x : Manager float ops)
      → IsRegistry x.downloads
      → IsRegistry (add_from_file float ops parsed path x).1.downloads
  unfolding add_from_file
  add_from_file-IsRegistry parsed path x v =
      add_file_with-IsRegistry (resolve_save_path float ops path x) parsed x.client x v

  pub restore-IsRegistry :
      (entry : Download Double) (x : Manager float ops)
      → IsRegistry x.downloads
      → IsRegistry (restore float ops entry x).1.downloads
  unfolding restore
  restore-IsRegistry entry x v =
      restore_with-IsRegistry (resolve_save_path float ops entry.save_path x) entry x.client x v
