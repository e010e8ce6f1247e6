-- ===== src/Domain/Json/Texts.antt =====
-- The texts of the JSON library: dump(2), and parse, which gives none for a discarded value.
use rats_search_tui.Base.{◌≡◌, Option, some}
use rats_search_tui.Domain.Json.{JsonOps}

pub record TextOps (json : JsonOps) : Type 1 where
  pub Content : Type 0
  pub dump : json.Json → Content
  pub parse : Content → Option json.Json

pub record ParseLaws (json : JsonOps) (texts : TextOps json) : Type 0 where
  pub parse_dump : (j : json.Json) → texts.parse (texts.dump j) ≡ some j
