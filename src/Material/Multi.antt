-- ===== src/Material/Multi.antt =====
-- material/multi.go and pagination.go: the search over several backends. The encodings of the composite
-- token, base64 over JSON, are parameters.
pub mod Pages
pub mod Merge
use aigo.Base.{
  ℕ, zero, suc, ◌+◌, ◌%◌, ◌^◌, String, Bool, true, false, not, ◌&&◌, Option, none, some, List, [],
  ◌∷◌, ◌++◌, length, take, ltb, str_eq, if◌then◌else◌,
}
use aigo.Base.Assoc.{Map, get, put}
use aigo.Base.Int.{ℤ, pos, negsuc}
use aigo.Errors.{Error}
use aigo.Material.{Request, Item, SearchResult, Searcher}

-- `PaginationState`
abbrev pub PaginationState : Type 0
PaginationState = Map String

-- `json.Marshal` under base64, and the reading of it: none if either part fails.
pub record Tokens : Type 0 where
  pub marshal : PaginationState → String
  pub unmarshal : String → Option PaginationState

-- `EncodePagination`
unfoldable pub encode_pagination : Tokens → PaginationState → String
encode_pagination tokens [] = ""
encode_pagination tokens (p ∷ state) = tokens.marshal (p ∷ state)

or_nil : Option PaginationState → PaginationState
or_nil none = []
or_nil (some state) = state

-- `DecodePagination`; a nil state reads as the empty one.
unfoldable pub decode_pagination : Tokens → String → PaginationState
unfolding or_nil
decode_pagination tokens token = if str_eq token "" then [] else or_nil (tokens.unmarshal token)

-- `BackendError`
pub record BackendError : Type 0 where
  pub source : String
  pub error : Error

-- `MultiResult`
pub record MultiResult : Type 0 where
  pub items : List Item
  pub total : ℕ
  pub next_token : String
  pub source : String
  pub errors : List BackendError

-- `outcome`
pub record Reply : Type 0 where
  pub source : String
  pub result : SearchResult
  pub failure : Option Error

or_no_source : Option String → String
or_no_source none = ""
or_no_source (some s) = s

-- `source`: what the backend describes.
unfoldable pub described : Searcher → String
unfolding or_no_source
described b = or_no_source b.describe

with_token : Request → Option String → Request
with_token req none = req
with_token req (some token) = record req { next_token = token }

-- The request for one backend.
unfoldable pub request_for : PaginationState → Request → Searcher → Request
unfolding with_token
request_for state req b =
    let own = with_token req (get state (described b)) in
    if str_eq (described b) "" then req else own

-- The goroutine of a backend.
unfoldable pub ask_backend : PaginationState → Request → Searcher → Reply
ask_backend state req b =
    let (r, failure) = b.search (request_for state req b) in
    let source = if str_eq r.source "" then described b else r.source in
    record { source = source; result = record r { source = source }; failure = failure }

-- What the loop over the channel has gathered.
pub record Gathered : Type 0 where
  pub items : List Item
  pub total : ℕ
  pub errors : List BackendError
  pub next_state : PaginationState

-- One outcome.
add_answer : Gathered → SearchResult → String → Option Error → Gathered
add_answer g r source (some e) = record g {
  errors = g.errors ++ record { source = source; error = e } ∷ [];
}
add_answer g r source none = record g {
  items = g.items ++ r.items;
  total = (g.total + r.total) % 2 ^ 64;
  next_state =
      if str_eq r.next_token "" then g.next_state else put g.next_state source r.next_token;
}

-- The loop, over the outcomes in the order in which they arrive.
unfoldable pub gather : Gathered → List Reply → Gathered
unfolding add_answer
gather g [] = g
gather g (a ∷ answers) = gather (add_answer g a.result a.source a.failure) answers

abbrev pub nothing_gathered : Gathered
nothing_gathered = record { items = []; total = 0; errors = []; next_state = [] }

-- At most `MaxResults` items, if it is positive.
unfoldable pub capped : ℤ → List Item → List Item
capped (pos n) items = if ltb 0 n && ltb n (length items) then take n items else items
capped (negsuc n) items = items

unfoldable pub answers_of : PaginationState → Request → List Searcher → List Reply
unfolding ask_backend
answers_of state req [] = []
answers_of state req (b ∷ backends) = ask_backend state req b ∷ answers_of state req backends

multi_result : Tokens → ℤ → Gathered → MultiResult
unfolding encode_pagination capped
multi_result tokens max g = record {
  items = capped max g.items;
  total = g.total;
  next_token = encode_pagination tokens g.next_state;
  source = "multi";
  errors = g.errors;
}

-- `SearchMulti`, with the backends in the order in which they answer. A backend that misses its timeout
-- answers with the error of its context.
unfoldable pub search_multi : Tokens → List Searcher → Request → MultiResult
unfolding gather answers_of multi_result
search_multi tokens backends req =
    multi_result tokens req.max_results
      (gather nothing_gathered (answers_of (decode_pagination tokens req.next_token) req backends))
