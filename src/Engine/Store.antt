-- ===== src/Engine/Store.antt =====
-- native/engine/p2p_store.h and p2p_store.cpp, with RATS_STORAGE defined: records of the
-- distributed store. librats' StorageManager is a parameter, as is the JSON library; a storage
-- that is none is the null pointer. A listener is told of what a method returns for it.
use rats_search_tui.Base.{
  ℤ, pos, Bool, true, false, List, [], ◌∷◌, Option, none, some, Text, codes, not, if◌then◌else◌,
}
use rats_search_tui.Domain.Json.{JsonOps}

-- put_json, has, keys_with_prefix and get_json of the StorageManager
pub record StorageOps (J : Type 0) : Type 1 where
  pub Storage : Type 0
  pub put_json : Text → J → Storage → Bool × Storage
  pub has_key : Text → Storage → Bool
  pub keys_with_prefix : Text → Storage → List Text
  pub get_json : Text → Storage → Option J

pub record StoredRecord (J : Type 0) : Type 0 where
  pub key : Text
  pub type : Text
  pub content : J
  pub peer_id : Text
  pub timestamp : ℤ

-- What librats reports of a change; the payload is none where it does not parse.
pub record ChangeEvent (J : Type 0) : Type 0 where
  pub is_remote : Bool
  pub key : Text
  pub new_content : Option J
  pub origin_peer_id : Text
  pub timestamp_ms : ℤ

pub record P2pStore (S : Type 0) : Type 0 where
  pub storage : Option S
  pub our_peer_id : Text

module _ (json : JsonOps) (storage : StorageOps json.Json) where
  open json use {Json, of_string, of_int, set, value_string, value_int64}
  open storage use {Storage, put_json, has_key, keys_with_prefix, get_json}

  abbrev pub is_available : P2pStore Storage → Bool
  is_available s = elim s.storage [ none ↦ false | some _ ↦ true ]

  abbrev put_record : Text → Text → ℤ → Json → StoredRecord Json
  put_record key peer now obj = record {
    key = key;
    type = value_string obj (codes "type") [];
    content = obj;
    peer_id = peer;
    timestamp = now;
  }

  abbrev put_result :
      P2pStore Storage
      → StoredRecord Json
      → Bool × Storage
      → (Bool × Option (StoredRecord Json)) × P2pStore Storage
  put_result s r (ok, after) =
      ((ok, if ok then some r else none), record s { storage = some after })

  -- The result, what the listener is told as a local record, and the store. `now` is the clock at
  -- the stamp, `later` at the record.
  unfoldable pub put :
      ℤ
      → ℤ
      → Text
      → Json
      → P2pStore Storage
      → (Bool × Option (StoredRecord Json)) × P2pStore Storage
  put now later key obj s = elim s.storage [
    | none ↦ ((false, none), s)
    | some st ↦
        let o1 = set obj (codes "_key") (of_string key) in
        let o2 = set o1 (codes "_peerId") (of_string s.our_peer_id) in
        let o3 = set o2 (codes "_timestamp") (of_int now) in
        put_result s (put_record key s.our_peer_id later o3) (put_json key o3 st)
  ]

  abbrev found_record : Text → Json → StoredRecord Json
  found_record key v = record {
    key = key;
    type = value_string v (codes "type") [];
    content = v;
    peer_id = value_string v (codes "_peerId") [];
    timestamp = value_int64 v (codes "_timestamp") (pos 0);
  }

  find_loop : Storage → List Text → List (StoredRecord Json)
  find_loop st [] = []
  find_loop st (key ∷ keys) = elim (get_json key st) [
    | none ↦ find_loop st keys
    | some v ↦ found_record key v ∷ find_loop st keys
  ]

  unfoldable pub find : Text → P2pStore Storage → List (StoredRecord Json)
  unfolding find_loop
  find prefix s = elim s.storage [ none ↦ [] | some st ↦ find_loop st (keys_with_prefix prefix st) ]

  unfoldable pub has : Text → P2pStore Storage → Bool
  has key s = elim s.storage [ none ↦ false | some st ↦ has_key key st ]

  -- The change callback: the record that it posts to the engine loop for the listener, as remote.
  unfoldable pub on_change : ChangeEvent Json → Option (StoredRecord Json)
  on_change e = if not e.is_remote then none else elim e.new_content [
    | none ↦ none
    | some v ↦ some (record {
      key = e.key;
      type = value_string v (codes "type") [];
      content = v;
      peer_id = e.origin_peer_id;
      timestamp = e.timestamp_ms;
    })
  ]
