-- ===== src/Engine/Sessions/Failures.antt =====
-- What a failed save of native/engine/session_store.cpp leaves as it is.
use rats_search_tui.Base.{◌≡◌, refl, Bool, false, List, [], ◌∷◌, Text, eq_text, FloatOps}
use rats_search_tui.Domain.Json.{JsonOps}
use rats_search_tui.Engine.Downloads.{Download}
use rats_search_tui.Platform.Disk.{Disk, Outcome, temporary, path-ne-temporary, write_file_keeps}
use rats_search_tui.Engine.Sessions.{JsonTexts, save, load}

module _ (json : JsonOps) (float : FloatOps) (texts : JsonTexts json float) where
  open float use {Double}

  save_keeps :
      (removed : Bool) (outcome : Outcome texts.Content) (path q : Text)
      (ds : List (Download Double)) (disk : Disk texts.Content)
      → (save json float texts removed outcome path ds disk).0 ≡ false
      → eq_text q (temporary path) ≡ false
      → (save json float texts removed outcome path ds disk).1 q ≡ disk q
  unfolding save
  save_keeps removed outcome path q [] disk e h = cc
  save_keeps removed outcome path q (d ∷ ds) disk e h = write_file_keeps outcome path _ q disk e h

  -- A save that returns false has changed no file but the temporary one beside the session file,
  -- whether that could not be opened, was written in part or could not be renamed: the session that
  -- was there is loaded as before.
  pub failed_save_keeps :
      (removed : Bool) (outcome : Outcome texts.Content) (path : Text) (ds : List (Download Double))
      (disk : Disk texts.Content)
      → (save json float texts removed outcome path ds disk).0 ≡ false
      → ((q : Text)
          → eq_text q (temporary path) ≡ false
          → (save json float texts removed outcome path ds disk).1 q ≡ disk q)
        × (load json float texts path (save json float texts removed outcome path ds disk).1
            ≡ load json float texts path disk)
  unfolding load
  failed_save_keeps removed outcome path ds disk e = (
    λ q h. save_keeps removed outcome path q ds disk e h,
    rw (save_keeps removed outcome path path ds disk e (path-ne-temporary path), load) refl,
  )
