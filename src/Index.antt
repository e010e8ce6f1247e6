-- ===== src/Index.antt =====
-- native/index/search_index.h: the queries, and the abstract class behind which the search engine
-- stands. A method returns its result and the new state of the index.
pub mod Groonga
use rats_search_tui.Base.{ℤ, pos, Bool, true, false, List, [], Text}
use rats_search_tui.Domain.Torrent.{Torrent, SearchHit}

pub record SearchQuery : Type 0 where
  pub text : Text
  pub offset : ℤ
  pub limit : ℤ
  pub sort : Text
  pub descending : Bool
  pub safe_search : Bool
  pub content_type : Text
  pub size_min : ℤ
  pub size_max : ℤ
  pub files_min : ℤ
  pub files_max : ℤ
  pub seeders_min : ℤ
  pub tracker : Text
  pub strict : Bool

-- A query with the members' defaults, but for the text and the limit of one.
unfoldable pub lookup_query : Text → SearchQuery
lookup_query hash = record {
  text = hash;
  offset = pos 0;
  limit = pos 1;
  sort = [];
  descending = true;
  safe_search = false;
  content_type = [];
  size_min = pos 0;
  size_max = pos 0;
  files_min = pos 0;
  files_max = pos 0;
  seeders_min = pos 0;
  tracker = [];
  strict = true;
}

pub record TopQuery : Type 0 where
  pub content_type : Text
  pub time : Text
  pub offset : ℤ
  pub limit : ℤ

pub record IndexStats : Type 0 where
  pub torrents : ℤ
  pub files : ℤ
  pub total_size : ℤ

pub record SearchIndex (J : Type 0) : Type 1 where
  pub State : Type 0
  pub upsert : Torrent J → State → Bool × State
  pub remove : Text → State → Bool × State
  pub search_names : SearchQuery → State → List (SearchHit J)
  pub search_files : SearchQuery → State → List (SearchHit J)
  pub top : TopQuery → State → List (Torrent J)
  pub random : ℤ → State → List (Torrent J)
  pub update_stats : Text → ℤ → ℤ → ℤ → State → Bool × State
  pub merge_info : Text → J → State → Bool × State
  pub update_votes : Text → ℤ → ℤ → State → Bool × State
  pub counts : State → IndexStats
  pub lowest_value_hashes : ℤ → State → List Text
