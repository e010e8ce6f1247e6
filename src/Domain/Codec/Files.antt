-- ===== src/Domain/Codec/Files.antt =====
-- The members that native/domain/torrent_codec.cpp writes, and the round trip of file lists.
use mathlib.Core.List.{append-nil, append_assoc}
use rats_search_tui.Base.{
  map, pos, ◌≡◌, refl, ap, sym, ◌∙◌, true, List, [], ◌∷◌, ◌++◌, Option, none, some, Text, codes,
  eq_text, All, if◌then◌else◌,
}
use rats_search_tui.Domain.Torrent.{File}
use rats_search_tui.Domain.Json.{JsonOps, JsonLaws, IsInt64}
use rats_search_tui.Domain.Codec.{
  file_to_json, files_loop, files_of, set_all, files_to_json, files_from_json,
}

module _ (json : JsonOps) (laws : JsonLaws json) where
  open json use {Json, object, is_object, find, set, of_string, of_int, empty}

  -- The last value that the pairs have for a key.
  abbrev pub last_value : Text → Option Json → List (Text × Json) → Option Json
  last_value k v [] = v
  last_value k v ((j, w) ∷ rest) = last_value k (if eq_text j k then some w else v) rest

  pub set_all-is_object :
      (ps : List (Text × Json)) (o : Json)
      → is_object o ≡ true
      → is_object (set_all json o ps) ≡ true
  unfolding set_all
  set_all-is_object [] o h = h
  set_all-is_object ((k, v) ∷ ps) o h =
      set_all-is_object ps (set o k v) (laws.set_is_object o k v h)

  find-set_all :
      (ps : List (Text × Json)) (o : Json) (k : Text)
      → is_object o ≡ true
      → find (set_all json o ps) k ≡ last_value k (find o k) ps
  unfolding set_all
  find-set_all [] o k h = refl
  find-set_all ((j, v) ∷ ps) o k h =
      find-set_all ps (set o j v) k (laws.set_is_object o j v h)
      ∙ ap (λ (w : Option Json). last_value k w ps) (laws.find_set o j k v h)

  pub find-set_all-object :
      (ps : List (Text × Json)) (k : Text) → find (set_all json object ps) k ≡ last_value k none ps
  find-set_all-object ps k =
      find-set_all ps object k laws.object_is_object
      ∙ ap (λ (v : Option Json). last_value k v ps) (laws.find_object k)

  abbrev file_members : File → List (Text × Json)
  file_members f = (codes "path", of_string f.path) ∷ (codes "size", of_int f.size) ∷ []

  read_file : Json → File
  read_file v = record {
    path = json.value_string v (codes "path") [];
    size = json.value_int64 v (codes "size") (pos 0);
  }

  file-round_trip : (f : File) → IsInt64 f.size → read_file (file_to_json json f) ≡ f
  unfolding file_to_json read_file
  file-round_trip f h =
      let o = set_all json object (file_members f) in
      let is_obj = set_all-is_object (file_members f) object laws.object_is_object in
      let look = λ (k : Text). find-set_all (file_members f) object k laws.object_is_object in
      λ i. record {
        path = laws.value_string_present o (codes "path") f.path [] is_obj (look (codes "path")) i;
        size =
            laws.value_int64_present o (codes "size") f.size (pos 0) is_obj (look (codes "size")) h
              i;
      }

  files_of-map :
      (fs : List File)
      → All (λ f. IsInt64 f.size) fs
      → files_of json (map (file_to_json json) fs) ≡ fs
  unfolding files_of read_file
  files_of-map [] h = refl
  files_of-map (f ∷ fs) h = λ i. file-round_trip f h.0 i ∷ files_of-map fs h.1 i

  elements-files_loop :
      (fs : List File) (arr : Json)
      → json.is_array arr ≡ true
      → (json.is_array (files_loop json arr fs) ≡ true)
        × (json.elements (files_loop json arr fs) ≡ json.elements arr ++ map (file_to_json json) fs)
  unfolding files_loop
  elements-files_loop [] arr h = (h, sym (append-nil _))
  elements-files_loop (f ∷ fs) arr h =
      let (is_arr, eq) =
        elements-files_loop fs (json.push_back arr (file_to_json json f))
          (laws.push_is_array arr _ h) in
      (
        is_arr,
        eq
            ∙ ap (λ (xs : List Json). xs ++ map (file_to_json json) fs) (laws.elements_push arr _ h)
            ∙ append_assoc (json.elements arr) (file_to_json json f ∷ [])
                (map (file_to_json json) fs),
      )

  pub files-round_trip :
      (fs : List File)
      → All (λ f. IsInt64 f.size) fs
      → files_from_json json (files_to_json json fs) ≡ fs
  unfolding files_from_json files_to_json
  files-round_trip fs h =
      let (is_arr, eq) = elements-files_loop fs json.array laws.array_is_array in
      rw (is_arr, eq, laws.elements_array) (files_of-map fs h)
