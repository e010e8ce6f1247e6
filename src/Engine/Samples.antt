-- ===== src/Engine/Samples.antt =====
-- An index that is a list of torrents, and a sort that does nothing, for the tests.
use rats_search_tui.Base.{
  ℕ, zero, suc, take, Permutes, ℤ, pos, negsuc, refl, true, false, List, [], ◌∷◌, Text, eq_text,
  length, if◌then◌else◌,
}
use rats_search_tui.Domain.Json.Sample.{Value}
use rats_search_tui.Domain.Torrent.{Torrent, SearchHit}
use rats_search_tui.Index.{SearchIndex}
use rats_search_tui.Engine.Feed.{FeedItem}

abbrev pub matching : Text → List (Torrent Value) → List (SearchHit Value)
matching hash [] = []
matching hash (t ∷ ts) =
    if eq_text t.hash hash
    then record {
      torrent = t;
      from_file_match = false;
      matching_paths = [];
      source_peer_id = [];
      remote = false;
      feed_date = pos 0;
    }
      ∷ matching hash ts
    else matching hash ts

abbrev pub set_votes : Text → ℤ → ℤ → List (Torrent Value) → List (Torrent Value)
set_votes hash good bad [] = []
set_votes hash good bad (t ∷ ts) =
    (if eq_text t.hash hash then record t { good = good; bad = bad } else t)
    ∷ set_votes hash good bad ts

abbrev pub first_hashes : ℕ → List (Torrent Value) → List Text
first_hashes zero ts = []
first_hashes (suc n) [] = []
first_hashes (suc n) (t ∷ ts) = t.hash ∷ first_hashes n ts

abbrev pub first_hashes_of : ℤ → List (Torrent Value) → List Text
first_hashes_of (pos n) ts = first_hashes n ts
first_hashes_of (negsuc n) ts = []

abbrev pub first_of : ℤ → List (Torrent Value) → List (Torrent Value)
first_of (pos n) ts = take n ts
first_of (negsuc n) ts = []

abbrev pub shelf : SearchIndex Value
shelf = record {
  State = List (Torrent Value);
  upsert = λ t ts. (true, t ∷ ts);
  remove = λ hash ts. (true, ts);
  search_names = λ q ts. matching q.text ts;
  search_files = λ q ts. [];
  top = λ q ts. ts;
  random = λ n ts. first_of n ts;
  update_stats = λ hash s l c ts. (true, ts);
  merge_info = λ hash info ts. (true, ts);
  update_votes = λ hash good bad ts. (true, set_votes hash good bad ts);
  counts = λ ts. record { torrents = pos (length ts); files = pos 0; total_size = pos 0 };
  lowest_value_hashes = first_hashes_of;
}

abbrev pub as_is : List (ℤ × FeedItem Value) → List (ℤ × FeedItem Value)
as_is xs = xs

pub as_is-Permutes : Permutes as_is
as_is-Permutes = record { lengths = λ xs. refl; members = λ P xs h. h }
