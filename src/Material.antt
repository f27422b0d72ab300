-- ===== src/Material.antt =====
-- material: search backends behind one interface, their URIs, and the search over several of them.
pub mod Multi
pub mod Retry
pub mod Uri
use aigo.Base.{ℕ, String, Option, none, some, List}
use aigo.Base.Assoc.{Map}
use aigo.Base.Int.{ℤ, Float64}
use aigo.Errors.{Error, Outcome}

-- `Request`
pub record Request : Type 0 where
  pub query : String
  pub media_types : List String
  pub tags : List String
  pub max_results : ℤ
  pub page : ℤ
  pub sort : String
  pub order : String
  pub next_token : String
  pub locale : String
  pub field_query : String
  pub simple_query : String

-- `Item`
pub record Item : Type 0 where
  pub id : String
  pub uri : String
  pub filename : String
  pub preview_url : String
  pub download_url : String
  pub size : ℤ
  pub media_type : String
  pub content_type : String
  pub width : ℤ
  pub height : ℤ
  pub duration : Float64
  pub source : String
  pub author : String
  pub license : String
  pub tags : List String
  pub score : Float64
  pub caption : String
  pub metadata : Map String

-- `Result`, with `Total` as its 64 bits
pub record SearchResult : Type 0 where
  pub items : List Item
  pub total : ℕ
  pub next_token : String
  pub source : String

-- `Searcher` with `Describer`: the answer to a request, which Go returns beside an error too, and
-- the source that it describes, if it does.
pub record Searcher : Type 0 where
  pub search : Request → SearchResult × Option Error
  pub describe : Option String
