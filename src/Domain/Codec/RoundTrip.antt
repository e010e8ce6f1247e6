-- ===== src/Domain/Codec/RoundTrip.antt =====
-- Reading what native/domain/torrent_codec.cpp writes.
use rats_search_tui.Base.{
  Bool-cases, inl, inr, wrap32, length, eq_ℤ, ltb_ℤ, ◌&&◌, ℤ, pos, ◌≡◌, refl, ap, ◌∙◌, Bool, true,
  false, not, List, [], ◌∷◌, ◌++◌, Option, none, some, Text, codes, eq_text, to_lower, All, null,
  if◌then◌else◌,
}
use rats_search_tui.Domain.Content.{
  content_type_from_string, content_category_from_string, type_to_string, category_to_string,
}
use rats_search_tui.Domain.Content.Names.{type_from-to_string, category_from-to_string}
use rats_search_tui.Domain.Torrent.{File, Torrent}
use rats_search_tui.Domain.Json.{JsonOps, JsonLaws, IsInt32, IsInt64}
use rats_search_tui.Domain.Codec.{
  ToJsonOptions, set_all, files_to_json, torrent_members, torrent_to_json, hash_from_json,
  file_list_from_json, torrent_from_json,
}
use rats_search_tui.Domain.Codec.Files.{
  last_value, set_all-is_object, find-set_all-object, files-round_trip,
}

module _ (json : JsonOps) (laws : JsonLaws json) where
  open json use {Json, object, is_object, find, set, of_string, of_int, empty}

  -- A torrent that the wire format can carry: a lower-case hash, numbers in the range of their C++
  -- types, a time of addition, and a count that is not zero where there are files.
  pub record IsWritable (t : Torrent Json) : Type 0 where
    pub lower : to_lower t.hash ≡ t.hash
    pub hashed : null t.hash ≡ false
    pub size : IsInt64 t.size
    pub files : IsInt32 t.files
    pub counted : (eq_ℤ t.files (pos 0) && not (null t.file_list)) ≡ false
    pub piece_length : IsInt32 t.piece_length
    pub added : IsInt64 t.added
    pub dated : ltb_ℤ (pos 0) t.added ≡ true
    pub seeders : IsInt32 t.seeders
    pub leechers : IsInt32 t.leechers
    pub completed : IsInt32 t.completed
    pub trackers_checked : IsInt64 t.trackers_checked
    pub good : IsInt32 t.good
    pub bad : IsInt32 t.bad
    pub file_sizes : All (λ f. IsInt64 f.size) t.file_list

  -- The members behind the first fourteen: info if it is not empty, and the files.
  abbrev extra : Bool → Torrent Json → List (Text × Json)
  extra true t = (codes "files_list", files_to_json json t.file_list) ∷ []
  extra false t = (codes "info", t.info) ∷ (codes "files_list", files_to_json json t.file_list) ∷ []

  abbrev full : ToJsonOptions
  full = record { include_files = true; include_info = true }

  to_json_members :
      (t : Torrent Json) (b : Bool)
      → empty t.info ≡ b
      → torrent_to_json json t full ≡ set_all json object (torrent_members json t ++ extra b t)
  unfolding torrent_to_json set_all
  to_json_members t true e = rw e refl
  to_json_members t false e = rw e refl

  abbrev info_of : Bool → Torrent Json → Json
  info_of true t = json.null
  info_of false t = t.info

  -- The keys of the first fourteen members.
  abbrev IsOwn : Text → Type 0
  IsOwn k = (eq_text (codes "info") k ≡ false) × (eq_text (codes "files_list") k ≡ false)

  -- What is found in the JSON of a torrent.
  record IsWritten (b : Bool) (t : Torrent Json) (o : Json) : Type 0 where
    is_obj : is_object o ≡ true
    own : (k : Text) → IsOwn k → find o k ≡ last_value json laws k none (torrent_members json t)
    info : (elim (find o (codes "info")) [ some v ↦ v | none ↦ json.null ]) ≡ info_of b t
    files : find o (codes "files_list") ≡ some (files_to_json json t.file_list)

  members-IsWritten :
      (b : Bool) (t : Torrent Json)
      → IsWritten b t (set_all json object (torrent_members json t ++ extra b t))
  members-IsWritten true t =
      let look = find-set_all-object json laws (torrent_members json t ++ extra true t) in
      record {
        is_obj =
            set_all-is_object json laws (torrent_members json t ++ extra true t) object
              laws.object_is_object;
        own = λ k (not_info, not_files). look k ∙ rw not_files refl;
        info = rw (look (codes "info")) refl;
        files = look (codes "files_list");
      }
  members-IsWritten false t =
      let look = find-set_all-object json laws (torrent_members json t ++ extra false t) in
      record {
        is_obj =
            set_all-is_object json laws (torrent_members json t ++ extra false t) object
              laws.object_is_object;
        own = λ k (not_info, not_files). look k ∙ rw (not_info, not_files) refl;
        info = rw (look (codes "info")) refl;
        files = look (codes "files_list");
      }

  -- A member that is found is read at its type.
  module _ (b : Bool) (t : Torrent Json) (o : Json) (x : IsWritten b t o) where
    abbrev own_value : Text → Option Json
    own_value k = last_value json laws k none (torrent_members json t)

    read_text :
        (k s : Text) → IsOwn k → own_value k ≡ some (of_string s) → json.value_string o k [] ≡ s
    read_text k s h e = laws.value_string_present o k s [] x.is_obj (x.own k h ∙ e)

    read_int :
        (k : Text) (n : ℤ)
        → IsOwn k
        → own_value k ≡ some (of_int n)
        → IsInt32 n
        → json.value_int o k (pos 0) ≡ n
    read_int k n h e r = laws.value_int_present o k n (pos 0) x.is_obj (x.own k h ∙ e) r

    read_int64 :
        (k : Text) (n : ℤ)
        → IsOwn k
        → own_value k ≡ some (of_int n)
        → IsInt64 n
        → json.value_int64 o k (pos 0) ≡ n
    read_int64 k n h e r = laws.value_int64_present o k n (pos 0) x.is_obj (x.own k h ∙ e) r

    module _ (w : IsWritable t) where
      read_hash : hash_from_json json o ≡ t.hash
      unfolding hash_from_json
      read_hash = rw (read_text (codes "hash") t.hash (refl, refl) refl, w.lower, w.hashed)

      read_file_list : file_list_from_json json o ≡ t.file_list
      unfolding file_list_from_json
      read_file_list =
          rw (x.files, file_list_from_json) (files-round_trip json laws t.file_list w.file_sizes)

      read_files :
          {n : ℤ} {fs : List File}
          → n ≡ t.files
          → fs ≡ t.file_list
          → (if eq_ℤ n (pos 0) && not (null fs) then wrap32 (pos (length fs)) else n) ≡ t.files
      read_files e f = rw (e, f, w.counted)

      read_added : (now : ℤ) {n : ℤ} → n ≡ t.added → (if ltb_ℤ (pos 0) n then n else now) ≡ t.added
      read_added now e = rw (e, w.dated)

      read_back : (now : ℤ) → torrent_from_json json now o ≡ record t { info = info_of b t }
      unfolding torrent_from_json
      read_back now = rw x.is_obj (λ i. record {
        hash = read_hash i;
        name = read_text (codes "name") t.name (refl, refl) refl i;
        size = read_int64 (codes "size") t.size (refl, refl) refl w.size i;
        files =
            read_files (read_int (codes "files") t.files (refl, refl) refl w.files) read_file_list
              i;
        piece_length =
            read_int (codes "pieceLength") t.piece_length (refl, refl) refl w.piece_length i;
        added = read_added now (read_int64 (codes "added") t.added (refl, refl) refl w.added) i;
        content_type =
            (ap content_type_from_string (
                  read_text (codes "contentType") (type_to_string t.content_type) (refl, refl) refl)
                ∙ type_from-to_string t.content_type)
              i;
        content_category =
            (ap content_category_from_string (
                  read_text (codes "contentCategory") (category_to_string t.content_category)
                    (refl, refl) refl)
                ∙ category_from-to_string t.content_category)
              i;
        seeders = read_int (codes "seeders") t.seeders (refl, refl) refl w.seeders i;
        leechers = read_int (codes "leechers") t.leechers (refl, refl) refl w.leechers i;
        completed = read_int (codes "completed") t.completed (refl, refl) refl w.completed i;
        trackers_checked =
            read_int64 (codes "trackersChecked") t.trackers_checked (refl, refl) refl
              w.trackers_checked i;
        good = read_int (codes "good") t.good (refl, refl) refl w.good i;
        bad = read_int (codes "bad") t.bad (refl, refl) refl w.bad i;
        info = x.info i;
        file_list = read_file_list i;
      })

  written :
      (b : Bool) (now : ℤ) (t : Torrent Json)
      → IsWritable t
      → torrent_from_json json now (set_all json object (torrent_members json t ++ extra b t))
        ≡ record t { info = info_of b t }
  written b now t w =
      read_back b t (set_all json object (torrent_members json t ++ extra b t))
        (members-IsWritten b t) w now

  -- Whatever a writable torrent holds, reading the JSON that it is written as, with its info and
  -- files, gives the torrent back, at any time; an empty info comes back as the null value.
  pub torrent-round_trip :
      (now : ℤ) (t : Torrent Json)
      → IsWritable t
      → torrent_from_json json now (torrent_to_json json t full)
        ≡ record t { info = if empty t.info then json.null else t.info }
  torrent-round_trip now t w = elim (Bool-cases (empty t.info)) [
    | inl e ↦ rw (e, to_json_members t true e) (written true now t w)
    | inr e ↦ rw (e, to_json_members t false e) (written false now t w)
  ]
