-- ===== src/Index/Groonga/Schema.antt =====
-- What the schema setup of native/index/groonga_index.cpp leaves.
use rats_search_tui.Base.{◌≡◌, true, Text, All, FloatOps}
use rats_search_tui.Domain.Json.{JsonOps}
use rats_search_tui.Index.Groonga.Client.{GroongaOps, send, command_ok, core_objects, file_objects}

module _ (json : JsonOps) (float : FloatOps) (groonga : GroongaOps json float) where
  open groonga use {State, exists}

  abbrev pub IsThere : State → Text × Text → Type 0
  IsThere s (name, ddl) = exists name s ≡ true

  -- The command of an object has made it, if its reply says so.
  abbrev pub Makes : Text × Text → Type 0
  Makes o =
      (s : State)
      → command_ok json float groonga (send json float groonga o.1 s).0 ≡ true
      → IsThere (send json float groonga o.1 s).1 o

  -- The command of an object takes none away.
  abbrev pub Keeps : Text × Text → Type 0
  Keeps p =
      (o : Text × Text) (s : State) → IsThere s o → IsThere (send json float groonga p.1 s).1 o

  -- The table_create and column_create commands of the schema make their objects, and they take none
  -- away.
  pub record Creates : Type 0 where
    pub core_made : All Makes core_objects
    pub files_made : All Makes file_objects
    pub core_kept : All Keeps core_objects
    pub files_kept : All Keeps file_objects
