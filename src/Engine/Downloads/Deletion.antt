-- ===== src/Engine/Downloads/Deletion.antt =====
-- native/engine/downloads.cpp: removeAndDelete, and the paths that it has the file system remove. A
-- path is its text on a POSIX system. The order in which std::sort leaves the directories, and
-- whether two paths are equal, are parameters; the flag of remove_torrent that asks the client to delete
-- files, which it does not do, is left out.
use rats_search_tui.Base.{
  ℕ, zero, suc, Bool, false, not, ◌&&◌, ◌||◌, List, [], ◌∷◌, ◌++◌, Option, none, some, Text,
  to_lower, is_prefix, drop_while_end, length, ltb, null, ◌==◌, FloatOps, if◌then◌else◌,
}
use rats_search_tui.Engine.Downloads.Client.{ClientOps}
use rats_search_tui.Engine.Downloads.{
  DownloadFile, Download, next_revision, find_download, erase_download,
}
use rats_search_tui.Engine.Downloads.Lifecycle.{Manager, on_client}

abbrev pub is_slash : ℕ → Bool
is_slash c = c == b'/'

abbrev pub is_absolute : Text → Bool
is_absolute [] = false
is_absolute (c ∷ s) = is_slash c

abbrev pub ends_in_slash : Text → Bool
ends_in_slash [] = false
ends_in_slash (c ∷ []) = is_slash c
ends_in_slash (c ∷ d ∷ s) = ends_in_slash (d ∷ s)

-- operator/ of paths
unfoldable pub append_path : Text → Text → Text
append_path base p =
    if is_absolute p
    then p
    else if null base || ends_in_slash base
    then base ++ p
    else base ++ b'/' ∷ p

-- parent_path of paths: the text before the slashes in front of the last name, which stay if there is
-- nothing before them.
unfoldable pub parent_path : Text → Text
parent_path p =
    let parent = drop_while_end is_slash (drop_while_end (λ c. not (is_slash c)) p) in
    if null parent && is_absolute p then b'/' ∷ [] else parent

-- The lambda underSavePath.
unfoldable pub under_save_path : Text → Text → Bool
under_save_path base p = ltb (length base) (length p) && is_prefix base p

-- The loop over the parents, from one on; a round of fuel for each.
unfoldable pub parents_loop : ℕ → Text → Text → List Text
parents_loop zero base parent = []
parents_loop (suc fuel) base parent =
    let rest = parents_loop fuel base (parent_path parent) in
    if under_save_path base parent then parent ∷ rest else []

unfoldable pub parents_of : Text → Text → List Text
parents_of base full = parents_loop (suc (length full)) base (parent_path full)

-- std::unique behind an element that stays, and on a whole range
unfoldable pub unique_after : (Text → Text → Bool) → Text → List Text → List Text
unique_after same d [] = []
unique_after same d (e ∷ es) =
    let rest = unique_after same (if same d e then d else e) es in
    if same d e then rest else e ∷ rest

unfoldable pub unique : (Text → Text → Bool) → List Text → List Text
unfolding unique_after
unique same [] = []
unique same (d ∷ ds) = d ∷ unique_after same d ds

module _ {D : Type 0} where
  -- The files that are removed, and the directories that are noted.
  unfoldable pub removed_files : Text → List (DownloadFile D) → List Text
  removed_files base [] = []
  removed_files base (f ∷ fs) =
      let full = append_path base f.path in
      let rest = removed_files base fs in if under_save_path base full then full ∷ rest else rest

  unfoldable pub noted_dirs : Text → List (DownloadFile D) → List Text
  noted_dirs base [] = []
  noted_dirs base (f ∷ fs) =
      let full = append_path base f.path in
      let rest = noted_dirs base fs in
      if under_save_path base full then parents_of base full ++ rest else rest

  module _ (sort : List Text → List Text) (same : Text → Text → Bool) where
    -- The calls of std::filesystem::remove, in order.
    unfoldable pub delete_download_files : Download D → List Text
    delete_download_files d =
        if null d.save_path
        then []
        else removed_files d.save_path d.files
          ++ unique same (sort (noted_dirs d.save_path d.files))

module _ (float : FloatOps) (ops : ClientOps float.Double) (sort : List Text → List Text)
    (same : Text → Text → Bool) where
  open float use {Double}
  open ops use {remove_torrent}

  -- The manager, and the paths that are removed.
  unfoldable pub delete_with :
      Text → Option (Download Double) → Manager float ops → List Text × Manager float ops
  delete_with h none x = ([], x)
  delete_with h (some removed) x = (
    delete_download_files sort same removed,
    record x {
      downloads = erase_download h x.downloads;
      revision = next_revision x.revision;
      client = on_client float ops (λ c. remove_torrent h c) h x.client;
    },
  )

  unfoldable pub remove_and_delete : Text → Manager float ops → List Text × Manager float ops
  remove_and_delete hash x =
      delete_with (to_lower hash) (find_download (to_lower hash) x.downloads) x
