-- ===== src/Index/Groonga/Absent.antt =====
-- A torrent that was removed is not written again by native/index/groonga_index.cpp.
use rats_search_tui.Base.{◌≡◌, List, [], Option, none, some, Text, FloatOps}
use rats_search_tui.Domain.Json.{JsonOps}
use rats_search_tui.Index.Groonga.Client.{GroongaOps, send}
use rats_search_tui.Index.Groonga.Query.{select_of}
use rats_search_tui.Index.Groonga.Rows.{ResultSet, first_result_set}

module _ (json : JsonOps) (float : FloatOps) (groonga : GroongaOps json float) where
  open json use {Json}
  open groonga use {State}

  -- The rows of a reply, none where it is no result set.
  abbrev pub rows_of : Option (ResultSet Json) → List Json
  rows_of none = []
  rows_of (some set) = set.rows

  -- A select of a column of the row changes nothing, and it brings no row.
  pub record IsAbsent (hash : Text) (s : State) : Type 0 where
    pub keeps : (column : Text) → (send json float groonga (select_of column hash) s).1 ≡ s
    pub no_row :
        (column : Text)
        → rows_of (
            first_result_set json float groonga
              (send json float groonga (select_of column hash) s).0)
          ≡ []
