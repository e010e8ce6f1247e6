-- ===== src/Engine/Downloads/Tests.antt =====
-- The theorems on native/engine/downloads.cpp at concrete inputs, with a client that takes everything.
use rats_search_tui.Base.{
  ℕ, ◌≤◌, ◌≡◌, refl, ℤ, pos, Bool, true, false, List, [], ◌∷◌, Option, none, some, Text, codes,
  arith, if◌then◌else◌, map, ◌++◌, eq_text, All, Permutes,
}
use rats_search_tui.Domain.Json.Sample.{Value}
use rats_search_tui.Domain.Samples.{ubuntu, whole}
use rats_search_tui.Engine.Downloads.Client.{ClientOps, TorrentStatus}
use rats_search_tui.Engine.Downloads.{Download, DownloadManager, default_download}
use rats_search_tui.Engine.Downloads.Registry.{IsRegistry}
use rats_search_tui.Engine.Downloads.Lifecycle.{Manager}
use rats_search_tui.Engine.Downloads.Histories.{
  run-IsRegistry, Event, adds, adds_info, pauses, ticks, removes, run,
}
use rats_search_tui.Engine.Downloads.Failures.{Addition, magnet, attempt, failed_addition_keeps}
use rats_search_tui.Engine.Downloads.Deletion.{
  append_path, parent_path, under_save_path, parents_loop, parents_of, removed_files, noted_dirs,
  unique, unique_after, delete_download_files,
}
use rats_search_tui.Engine.Downloads.Deleted.{IsDirOf, deleted_lem}
use rats_search_tui.Engine.Downloads.Completion.{announced, announced_once, late_metadata_announces}

abbrev half : TorrentStatus ℤ
half = record {
  exists = true;
  has_metadata = true;
  is_complete = false;
  name = codes "Ubuntu";
  total_size = pos 5000;
  downloaded = pos 2500;
  progress = pos 0;
  num_peers = pos 3;
  files = [];
}

abbrev whole_of : TorrentStatus ℤ
whole_of = record half { is_complete = true; downloaded = pos 5000 }

abbrev taking : ClientOps ℤ
taking = record {
  State = List Text;
  add_magnet = λ uri path c. (true, uri ∷ c);
  add_magnet_resumed = λ uri path c. (true, uri ∷ c);
  add_torrent = λ info path c. (true, info.info_hash_hex ∷ c);
  remove_torrent = λ h c. c;
  save_resume_data = λ h c. c;
  pause_torrent = λ h c. c;
  resume_torrent = λ h c. c;
  torrent_status = λ h c. half;
  is_info_hash = λ h. true;
}

abbrev manager : Manager whole taking
manager = record {
  client = some [];
  default_path = codes "/downloads";
  downloads = [];
  running = true;
  revision = 0;
  session_file_path = codes "session.json";
  last_saved_revision = 0;
  ever_saved = false;
  completions = [];
}

abbrev session : List (Event Value ℤ)
session =
    adds (codes "magnet:?xt=urn:btih:00112233445566778899AABBCCDDEEFF00112233") []
    ∷ adds_info ubuntu []
    ∷ ticks (pos 1000)
    ∷ pauses ubuntu.hash
    ∷ removes ubuntu.hash true
    ∷ []

run-IsRegistry_example : IsRegistry (run whole taking manager session).downloads
run-IsRegistry_example = run-IsRegistry whole taking manager session tt

abbrev bad_magnet : Addition Value ℤ
bad_magnet = magnet (codes "no hash") []

bad_magnet_fails : (attempt whole taking bad_magnet manager).0 ≡ false
unfolding attempt rats_search_tui.Engine.Downloads.Lifecycle.add
    rats_search_tui.Engine.Downloads.Lifecycle.add_with
    rats_search_tui.Engine.Downloads.parse_info_hash rats_search_tui.Engine.Downloads.is_valid_hash
    rats_search_tui.Engine.Downloads.behind_btih rats_search_tui.Base.to_lower
    rats_search_tui.Base.lower_byte
bad_magnet_fails = refl

failed_addition_keeps_example :
    ((attempt whole taking bad_magnet manager).1.downloads ≡ manager.downloads)
    × ((attempt whole taking bad_magnet manager).1.revision ≡ manager.revision)
failed_addition_keeps_example =
    failed_addition_keeps whole taking bad_magnet manager bad_magnet_fails

abbrev seeding : Download ℤ
seeding = record {
  hash = ubuntu.hash;
  name = ubuntu.name;
  save_path = codes "/downloads";
  total_size = pos 5000;
  downloaded_bytes = pos 5000;
  progress = pos 1;
  download_speed = pos 0;
  peers_connected = pos 0;
  paused = false;
  remove_on_done = false;
  ready = false;
  completed = true;
  files = [];
  last_sampled_bytes = pos 0;
  last_sampled_ms = pos 0;
  last_progress = none;
}

abbrev loading : Download ℤ
loading = record seeding { ready = true; completed = false }

announced_once_example :
    announced whole taking
      ((pos 1000, half) ∷ (pos 2000, whole_of) ∷ (pos 3000, whole_of) ∷ [])
      loading
    ≤ (if loading.completed then 0 else 1)
announced_once_example =
    announced_once whole taking
      ((pos 1000, half) ∷ (pos 2000, whole_of) ∷ (pos 3000, whole_of) ∷ []) loading refl

late_metadata_announces_example :
    announced whole taking ((pos 1000, half) ∷ (pos 2000, whole_of) ∷ []) seeding ≡ 1
late_metadata_announces_example =
    late_metadata_announces whole taking (pos 1000) (pos 2000) half whole_of seeding refl refl refl
      refl refl

-- A download with a file in a folder, and one whose path leads out of the save path.
abbrev hostile : Download ℤ
hostile = record (unfold default_download in default_download whole) {
  save_path = codes "/dl";
  files =
      record { path = codes "a/b"; size = pos 1; index = pos 0; selected = true; progress = pos 0 }
      ∷ record {
        path = codes "../x";
        size = pos 1;
        index = pos 1;
        selected = true;
        progress = pos 0;
      }
      ∷ [];
}

unsorted-Permutes : Permutes {A = Text} (λ ds. ds)
unsorted-Permutes = record { lengths = λ ds. refl; members = λ P ds h. h }

deleted_lem_example :
    (dirs : List Text) × (delete_download_files (λ ds. ds) eq_text hostile
      ≡ map (λ f. codes "/dl" ++ codes "/" ++ f.path) hostile.files ++ dirs)
    × All (IsDirOf (codes "/dl") hostile.files) dirs
deleted_lem_example =
    deleted_lem (λ ds. ds) eq_text hostile unsorted-Permutes refl refl (refl, (refl, tt))

deleted_paths :
    delete_download_files (λ ds. ds) eq_text hostile
    ≡ codes "/dl/a/b" ∷ codes "/dl/../x" ∷ codes "/dl/a" ∷ codes "/dl/.." ∷ []
unfolding delete_download_files removed_files noted_dirs parents_of parents_loop parent_path
    append_path under_save_path unique unique_after
deleted_paths = refl
