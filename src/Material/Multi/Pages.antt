-- ===== src/Material/Multi/Pages.antt =====
-- material/multi.go and pagination.go: the tokens that the backends get on the next page.
use aigo.Base.{
  ◌≡◌, refl, ap, ◌∙◌, String, false, Option, none, some, List, [], ◌∷◌, ◌++◌, All, str_eq, arith,
}
use aigo.Base.Assoc.{get, get-put, str_eq_refl}
use aigo.Errors.{Error}
use aigo.Material.{Request, SearchResult, Searcher}
use aigo.Material.Multi.{
  Tokens, PaginationState, Gathered, Reply, add_answer, gather, nothing_gathered, ask_backend,
  answers_of, search_multi, multi_result, encode_pagination, decode_pagination, described,
  request_for, with_token,
}

module _ (s : String) where
  -- Answers of other sources keep the token of this one.
  add_answer-other :
      (g : Gathered) (r : SearchResult) (source : String) (o : Option Error)
      → str_eq source s ≡ false
      → get (add_answer g r source o).next_state s ≡ get g.next_state s
  unfolding add_answer
  add_answer-other g r source (some e) h = refl
  add_answer-other g r source none h = ground (arith, get-put g.next_state source s r.next_token, h)

  gather-other :
      (g : Gathered) (xs : List Reply)
      → All (λ (a : Reply). str_eq a.source s ≡ false) xs
      → get (gather g xs).next_state s ≡ get g.next_state s
  unfolding gather
  gather-other g [] h = refl
  gather-other g (a ∷ xs) h =
      gather-other (add_answer g a.result a.source a.failure) xs h.1
      ∙ add_answer-other g a.result a.source a.failure h.0

  -- The token of the last answer of the source is kept.
  gather-own :
      (g : Gathered) (before : List Reply) (a : Reply) (after : List Reply)
      → a.source ≡ s
      → a.failure ≡ none
      → str_eq a.result.next_token "" ≡ false
      → All (λ (x : Reply). str_eq x.source s ≡ false) after
      → get (gather g (before ++ a ∷ after)).next_state s ≡ some a.result.next_token
  unfolding gather
  gather-own g [] a after own done token others = gather-other _ after others ∙ last a.failure done
    where
      last :
          (o : Option Error)
          → o ≡ none
          → get (add_answer g a.result a.source o).next_state s ≡ some a.result.next_token
      last none e =
          ground
            (arith, get-put g.next_state a.source s a.result.next_token, token, own, str_eq_refl s)
      last (some x) e = absurd (ground arith)
  gather-own g (b ∷ before) a after own done token others =
      gather-own (add_answer g b.result b.source b.failure) before a after own done token others

-- What is relied on of base64 over JSON: the token of a state is not empty and is read back.
pub record IsReadBack (tokens : Tokens) (state : PaginationState) : Type 0 where
  pub written : str_eq (tokens.marshal state) "" ≡ false
  pub read : tokens.unmarshal (tokens.marshal state) ≡ some state

-- The state that the answers of the backends leave.
abbrev pub state_after : Tokens → Request → List Searcher → PaginationState
state_after tokens req backends =
    (gather nothing_gathered
      (answers_of (decode_pagination tokens req.next_token) req backends)).next_state

module _ (tokens : Tokens) where
  decode_pagination-encode :
      (state : PaginationState)
      → IsReadBack tokens state
      → decode_pagination tokens (encode_pagination tokens state) ≡ state
  unfolding decode_pagination encode_pagination
  decode_pagination-encode [] law = refl
  decode_pagination-encode (p ∷ state) law = rw (law.written, law.read) refl

  request_for-own :
      (state : PaginationState) (req : Request) (b : Searcher) (token : String)
      → str_eq (described b) "" ≡ false
      → get state (described b) ≡ some token
      → (request_for state req b).next_token ≡ token
  unfolding request_for with_token
  request_for-own state req b token named found = rw (named, found) refl

  answers_of-append :
      (state : PaginationState) (req : Request) (before : List Searcher) (b : Searcher)
      (after : List Searcher)
      → answers_of state req (before ++ b ∷ after)
        ≡ answers_of state req before ++ ask_backend state req b ∷ answers_of state req after
  unfolding answers_of
  answers_of-append state req [] b after = refl
  answers_of-append state req (c ∷ before) b after =
      ap (λ xs. ask_backend state req c ∷ xs) (answers_of-append state req before b after)

  -- A backend with a source of its own among those that answer after it, whose answer came without an
  -- error and with a token under this source, gets this token in every request that carries the
  -- composite token of the merged result.
  pub search_multi-next :
      (req next : Request) (before : List Searcher) (b : Searcher) (after : List Searcher)
      → IsReadBack tokens (state_after tokens req (before ++ b ∷ after))
      → let state = decode_pagination tokens req.next_token in
        let a = ask_backend state req b in
        str_eq (described b) "" ≡ false
        → a.source ≡ described b
        → a.failure ≡ none
        → str_eq a.result.next_token "" ≡ false
        → All (λ (x : Reply). str_eq x.source (described b) ≡ false) (answers_of state req after)
        → (request_for
            (decode_pagination tokens (search_multi tokens (before ++ b ∷ after) req).next_token)
            next
            b).next_token
          ≡ a.result.next_token
  unfolding search_multi multi_result
  search_multi-next req next before b after law named own done token others =
      ap (λ st. (request_for st next b).next_token) (decode_pagination-encode _ law)
      ∙ request_for-own _ next b _ named (
          ap (λ xs. get (gather nothing_gathered xs).next_state (described b))
            (answers_of-append (decode_pagination tokens req.next_token) req before b after)
          ∙ gather-own (described b) nothing_gathered
              (answers_of (decode_pagination tokens req.next_token) req before)
              (ask_backend (decode_pagination tokens req.next_token) req b) _ own done token others)

  -- A backend that gave no token under its source gets the composite token itself, which is no token of
  -- its own, in the request for the next page.
  pub request_for-composite :
      (state : PaginationState) (next : Request) (b : Searcher)
      → get state (described b) ≡ none
      → (request_for state next b).next_token ≡ next.next_token
  unfolding request_for with_token
  request_for-composite state next b absent = ground (arith, absent)
