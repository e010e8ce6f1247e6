-- ===== src/Engine/Downloads/Loaded.antt =====
-- What the session of native/engine/downloads.cpp keeps of the registry.
use rats_search_tui.Base.{
  ◌≡◌, refl, ◌∙◌, Bool, List, [], ◌∷◌, Option, none, some, Text, to_lower, FloatOps, Bool-cases,
  inl, inr, arith, if◌then◌else◌,
}
use rats_search_tui.Engine.Downloads.Client.{ClientOps}
use rats_search_tui.Engine.Downloads.{Download, is_valid_hash, find_download}
use rats_search_tui.Engine.Downloads.Registry.{
  IsRegistry, put_download-IsRegistry, find_download-IsKeyed,
}
use rats_search_tui.Engine.Downloads.Lifecycle.{Manager, restore, pause}
use rats_search_tui.Engine.Downloads.Session.{
  amend, set_remove_on_done, select_files, settle_entry, load_entry, load_session, save_session,
  autosave_tick,
}
use rats_search_tui.Engine.Downloads.Calls.{pause-IsRegistry, restore-IsRegistry}
use rats_search_tui.Engine.Downloads.Polled.{if-IsRegistry}

module _ (float : FloatOps) (ops : ClientOps float.Double) where
  open float use {Double}

  amend-IsRegistry :
      (f : Download Double → Download Double) (keeps : (d : Download Double) → (f d).hash ≡ d.hash)
      (h : Text) (o : Option (Download Double)) (x : Manager float ops)
      → find_download h x.downloads ≡ o
      → IsRegistry x.downloads
      → IsRegistry (amend float ops f h o x).downloads
  unfolding amend
  amend-IsRegistry f keeps h none x e v = v
  amend-IsRegistry f keeps h (some d) x e v =
      let k = find_download-IsKeyed h d x.downloads v e in
      put_download-IsRegistry h (f d) x.downloads (keeps d ∙ k.0, k.1) v

  pub set_remove_on_done-IsRegistry :
      (hash : Text) (b : Bool) (x : Manager float ops)
      → IsRegistry x.downloads
      → IsRegistry (set_remove_on_done float ops hash b x).downloads
  unfolding set_remove_on_done
  set_remove_on_done-IsRegistry hash b x v =
      amend-IsRegistry (λ (d : Download Double). record d { remove_on_done = b }) (λ d. refl)
        (to_lower hash) _ x refl v

  settle_entry-IsRegistry :
      (e : Download Double) (x : Manager float ops)
      → IsRegistry x.downloads
      → IsRegistry (settle_entry float ops e x).downloads
  unfolding settle_entry
  settle_entry-IsRegistry e x v =
      let paused = if e.paused then (pause float ops e.hash x).1 else x in
      let marked = set_remove_on_done float ops e.hash e.remove_on_done paused in
      amend-IsRegistry
        (λ (d : Download Double). record d { files = select_files float ops e.files d.files })
        (λ d. refl) (to_lower e.hash) _ marked refl
        (set_remove_on_done-IsRegistry e.hash e.remove_on_done paused (
          if-IsRegistry float ops e.paused (pause float ops e.hash x).1 x
            (pause-IsRegistry float ops e.hash x v) v))

  load_entry-IsRegistry :
      (e : Download Double) (x : Manager float ops)
      → IsRegistry x.downloads
      → IsRegistry (load_entry float ops e x).1.downloads
  unfolding load_entry
  load_entry-IsRegistry e x v =
      let r = restore float ops e x in
      let w = restore-IsRegistry float ops e x v in
      elim (Bool-cases (is_valid_hash e.hash)) [
        | inr q ↦ rw q v
        | inl q ↦ elim (Bool-cases r.0) [
          | inl k ↦ rw (q, k) (settle_entry-IsRegistry e r.1 w)
          | inr k ↦ rw (q, k) w
        ]
      ]

  pub load_session-IsRegistry :
      (es : List (Download Double)) (x : Manager float ops)
      → IsRegistry x.downloads
      → IsRegistry (load_session float ops es x).1.downloads
  unfolding load_session
  load_session-IsRegistry [] x v = v
  load_session-IsRegistry (e ∷ es) x v =
      load_session-IsRegistry es (load_entry float ops e x).1 (load_entry-IsRegistry e x v)

  pub autosave_tick_downloads :
      (written : Bool) (x : Manager float ops)
      → (autosave_tick float ops written x).downloads ≡ x.downloads
  unfolding autosave_tick save_session
  autosave_tick_downloads written x = ground arith
