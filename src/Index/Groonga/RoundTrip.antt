-- ===== src/Index/Groonga/RoundTrip.antt =====
-- A torrent that native/index/groonga_index.cpp loads into the index is read back from its row.
use mathlib.Core.Option
use rats_search_tui.Base.{
  ℤ, pos, ◌≤ℤ◌, ltb_ℤ, ◌&&◌, arith, ◌≡◌, refl, ap, sym, ◌∙◌, Bool, true, false, not, Bool-cases,
  ◌⊎◌, inl, inr, List, [], ◌∷◌, ◌++◌, map, Option, none, some, Text, codes, null, if_intro, All,
  FloatOps, if◌then◌else◌,
}
use rats_search_tui.Domain.Json.{JsonOps, JsonLaws, IsInt64}
use rats_search_tui.Domain.Codec.{files_to_json, default_torrent}
use rats_search_tui.Domain.Codec.Files.{files-round_trip}
use rats_search_tui.Domain.Torrent.{File, Torrent}
use rats_search_tui.Index.Groonga.Client.{GroongaOps}
use rats_search_tui.Index.Groonga.Rows.{
  listed_files, set_info, set_columns, count_files, row_to_torrent,
}
use rats_search_tui.Index.Groonga.Stored.{
  output_names, RowLaws, in_seconds, IsStorable, stored, object_of, kept_info, time_of, bare,
  row_of, member_or, read_row,
}
use rats_search_tui.Index.Groonga.Writes.{
  trackers_of, trackers_member, seconds, info_with_files, row_members,
}

positive : (n : ℤ) → ltb_ℤ (pos 0) n ≡ true → pos 1 ≤ℤ n
positive n h = ground (arith, h)

not_positive : (n : ℤ) → pos 0 ≤ℤ n → ltb_ℤ (pos 0) n ≡ false → n ≡ pos 0
not_positive n h e = ground (arith, h, e)

no_files : (fs : List File) (b : Bool) → (null fs && b) ≡ true → [] ≡ fs
no_files [] b e = refl
no_files (f ∷ fs) b e = cc

module _ (json : JsonOps) (float : FloatOps) (groonga : GroongaOps json float) where
  open json use {Json, of_string, of_int, is_object, find, empty}
  open float use {Double, div, lit, less}
  open groonga use {as_string, as_int64, as_int, as_double, of_double, dump, parse, erase}

  module _ (default : Text → Json) (laws : RowLaws json float groonga default) where
    abbrev with_list : Json → List File → Json
    with_list info fs =
        if not (null fs) then json.set info (codes "filesList") (files_to_json json fs) else info

    module _ (json_laws : JsonLaws json) where
      record IsRead (info v : Json) (fs : List File) : Type 0 where
        is_obj : is_object v ≡ true
        read : listed_files json float groonga (find v (codes "filesList")) [] ≡ fs
        erased : erase v (codes "filesList") ≡ info

      with_list-IsRead :
          (info : Json) (fs : List File)
          → is_object info ≡ true
          → find info (codes "filesList") ≡ none
          → All (λ f. IsInt64 f.size) fs
          → IsRead info (with_list info fs) fs
      with_list-IsRead info [] obj e h = record {
        is_obj = obj;
        read = rw e refl;
        erased = laws.erase_absent info (codes "filesList") e;
      }
      with_list-IsRead info (f ∷ fs) obj e h =
          let list = files_to_json json (f ∷ fs) in
          record {
            is_obj = json_laws.set_is_object info (codes "filesList") list obj;
            read =
                ap (λ (o : Option Json). listed_files json float groonga o [])
                  (json_laws.find_set info (codes "filesList") (codes "filesList") list obj)
                ∙ files-round_trip json json_laws (f ∷ fs) h;
            erased =
                laws.erase_set info list (codes "filesList")
                ∙ laws.erase_absent info (codes "filesList") e;
          }

      set_info-IsRead :
          (u : Torrent Json) (info v : Json) (fs : List File)
          → u.file_list ≡ []
          → IsRead info v fs
          → null (dump v) ≡ false
          → parse (dump v) ≡ some v
          → set_info json float groonga u (dump v) ≡ record u { info = info; file_list = fs }
      unfolding set_info
      set_info-IsRead u info v fs e h dumped parsed =
          rw (dumped, parsed, h.is_obj)
            (λ i. record u {
              info = h.erased i;
              file_list =
                  (ap (listed_files json float groonga (find v (codes "filesList"))) e ∙ h.read) i;
            })

      -- The last members of a row.
      abbrev tail : Bool → Json → List (Text × Json) → Bool → Json → List (Text × Json)
      tail b c tr f w =
          (if b then (codes "trackers_checked", c) ∷ [] else [])
          ++ tr
          ++ (if not f then (codes "info", w) ∷ [] else [])

      abbrev IsTrackers : List (Text × Json) → Type 0
      IsTrackers tr = (tr ≡ []) ⊎ ((v : Json) × (tr ≡ (codes "trackers", v) ∷ []))

      tail_lem :
          (b f : Bool) (c w d e : Json) (tr : List (Text × Json))
          → IsTrackers tr
          → (member_or (codes "trackers_checked") d (tail b c tr f w) ≡ (if b then c else d))
            × (member_or (codes "info") e (tail b c tr f w) ≡ (if f then e else w))
      tail_lem true true c w d e tr (inl h) = rw h (refl, refl)
      tail_lem true true c w d e tr (inr (v, h)) = rw h (refl, refl)
      tail_lem true false c w d e tr (inl h) = rw h (refl, refl)
      tail_lem true false c w d e tr (inr (v, h)) = rw h (refl, refl)
      tail_lem false true c w d e tr (inl h) = rw h (refl, refl)
      tail_lem false true c w d e tr (inr (v, h)) = rw h (refl, refl)
      tail_lem false false c w d e tr (inl h) = rw h (refl, refl)
      tail_lem false false c w d e tr (inr (v, h)) = rw h (refl, refl)

      trackers_of-cases : (o : Option Json) → IsTrackers (trackers_of json float groonga o)
      trackers_of-cases none = inl refl
      trackers_of-cases (some v) = if_intro IsTrackers (json.is_array v) (inr (_, refl)) (inl refl)

      stored-tail :
          (t : Torrent Json)
          → (stored json float groonga default t (codes "trackers_checked") ≡ (
              if ltb_ℤ (pos 0) t.trackers_checked
              then seconds json float groonga t.trackers_checked
              else default (codes "trackers_checked")))
            × (stored json float groonga default t (codes "info") ≡ (
                if empty (info_with_files json float groonga t)
                then default (codes "info")
                else of_string (dump (info_with_files json float groonga t))))
      unfolding row_members trackers_member
      stored-tail t =
          tail_lem (ltb_ℤ (pos 0) t.trackers_checked) (empty (info_with_files json float groonga t))
            _ _ _ _ _
            (if_intro IsTrackers (is_object t.info)
              (trackers_of-cases (find t.info (codes "trackers"))) (inl refl))

      -- The time is read as it was, or it is zero.
      read_time :
          (t : Torrent Json)
          → IsStorable json float groonga t
          → (x : Double) × (as_double
                (stored json float groonga default t (codes "trackers_checked"))
              ≡ some x)
            × (time_of json float groonga x ≡ t.trackers_checked)
      read_time t h = elim (Bool-cases (ltb_ℤ (pos 0) t.trackers_checked)) [
        | inl e ↦ (
          in_seconds json float groonga t.trackers_checked,
          ap as_double ((stored-tail t).0 ∙ rw e refl) ∙ laws.doubles _,
          rw (laws.later_times t.trackers_checked (positive t.trackers_checked e) h.checked.1)
              (laws.times t.trackers_checked h.checked.0 h.checked.1),
        )
        | inr e ↦ (
          laws.no_time,
          ap as_double ((stored-tail t).0 ∙ rw e refl) ∙ laws.no_time_read,
          rw laws.no_time_sign (sym (not_positive t.trackers_checked h.checked.0 e)),
        )
      ]

      object_of-is_object : (info : Json) → is_object (object_of json float groonga info) ≡ true
      object_of-is_object info = elim (Bool-cases (is_object info)) [
        | inl e ↦ rw e e
        | inr e ↦ rw e json_laws.object_is_object
      ]

      object_of-unlisted :
          (info : Json) (k : Text)
          → (is_object info ≡ true → find info k ≡ none)
          → find (object_of json float groonga info) k ≡ none
      object_of-unlisted info k h = elim (Bool-cases (is_object info)) [
        | inl e ↦ rw e (h e)
        | inr e ↦ rw e (json_laws.find_object k)
      ]

      info-with_list :
          (t : Torrent Json)
          → IsStorable json float groonga t
          → IsRead
              (object_of json float groonga t.info)
              (info_with_files json float groonga t)
              t.file_list
      unfolding info_with_files
      info-with_list t h =
          with_list-IsRead (object_of json float groonga t.info) t.file_list
            (object_of-is_object t.info) (object_of-unlisted t.info _ h.unlisted) h.file_sizes

      with_list-empty :
          (info : Json) (fs : List File) → empty (with_list info fs) ≡ (null fs && empty info)
      with_list-empty info [] = refl
      with_list-empty info (f ∷ fs) = laws.set_filled info (codes "filesList") _

      -- What is read of the information and of the files.
      read_info :
          (t : Torrent Json) (time : ℤ)
          → IsStorable json float groonga t
          → (s : Text) × (as_string (stored json float groonga default t (codes "info")) ≡ some s)
            × (set_info json float groonga (bare json float groonga t time) s
                ≡ record t { trackers_checked = time; info = kept_info json float groonga t })
      unfolding info_with_files set_info
      read_info t time h =
          let w = info_with_files json float groonga t in
          let i0 = object_of json float groonga t.info in
          let u = bare json float groonga t time in
          let same = with_list-empty i0 t.file_list in
          elim (Bool-cases (null t.file_list && empty i0)) [
            | inl e ↦ (
              [],
              ap as_string ((stored-tail t).1 ∙ rw (same ∙ e) refl) ∙ laws.no_info,
              rw e (λ i. record u { file_list = no_files t.file_list (empty i0) e i }),
            )
            | inr e ↦ (
              dump w,
              ap as_string ((stored-tail t).1 ∙ rw (same ∙ e) refl) ∙ laws.strings (dump w),
              rw e (
                  set_info-IsRead u i0 w t.file_list refl (info-with_list t h) (laws.dump_filled w)
                    (laws.parse_dump w)),
            )
          ]

      read_back :
          (t : Torrent Json) (time : ℤ)
          → IsStorable json float groonga t
          → time ≡ t.trackers_checked
          → count_files json float groonga
              (record t { trackers_checked = time; info = kept_info json float groonga t })
            ≡ record t { info = kept_info json float groonga t }
      unfolding count_files
      read_back t time h e =
          rw h.counted
            (λ i. record t { trackers_checked = e i; info = kept_info json float groonga t })

      columns_stored :
          (t : Torrent Json)
          → map (stored json float groonga default t) output_names
            ≡ row_of json float groonga t
                (stored json float groonga default t (codes "trackers_checked"))
                (stored json float groonga default t (codes "info"))
      unfolding row_members
      columns_stored t = refl

      -- A torrent that a row can hold is read back from a row that has, in the order of the columns,
      -- what was loaded for it, or a column's default where nothing was. All of it is as it was but
      -- for information that is no object or is empty: it comes back as null where the torrent has no
      -- files, and as an empty object where it has some.
      pub row-round_trip :
          (t : Torrent Json) (row : Json)
          → IsStorable json float groonga t
          → json.is_array row ≡ true
          → json.elements row ≡ map (stored json float groonga default t) output_names
          → row_to_torrent json float groonga output_names row
            ≡ some (record t { info = kept_info json float groonga t })
      unfolding row_to_torrent
      row-round_trip t row h arr e =
          let (x, read_x, time) = read_time t h in
          let (s, read_s, kept) = read_info t (time_of json float groonga x) h in
          rw (arr, e)
            (ap
                (λ (vs : List Json).
                  Option.map (count_files json float groonga)
                    (set_columns json float groonga output_names vs (default_torrent json)))
                (columns_stored t)
              ∙ ap (Option.map (count_files json float groonga))
                  (read_row json float groonga default laws t h _ _ x s read_x read_s)
              ∙ ap (λ (u : Torrent Json). some (count_files json float groonga u)) kept
              ∙ ap some (read_back t (time_of json float groonga x) h time))
