-- ===== src/Errors/Chains.antt =====
-- Classification survives the wrapping that the layers above add.
use aigo.Base.{String, ◌≡◌, refl, ◌∙◌, false, ◌||◌, some, List, [], ◌∷◌, arith, leb, ◌==◌, ap}
use aigo.Base.Int.{pos}
use aigo.Errors.{
  Error, ApiError, Dates, Response, classify_status, from_http_response, as_api, is_retryable,
  get_code, is_canceled, is_transient_native,
}

-- The chain after each layer has added its message.
abbrev pub wrap_all : List String → Error → Error
wrap_all [] e = e
wrap_all (m ∷ ms) e = Error.wrap m (wrap_all ms e)

as_api-wrap_all : (ms : List String) (e : Error) → as_api (wrap_all ms e) ≡ as_api e
unfolding as_api
as_api-wrap_all [] e = refl
as_api-wrap_all (m ∷ ms) e = as_api-wrap_all ms e

is_canceled-wrap_all : (ms : List String) (e : Error) → is_canceled (wrap_all ms e) ≡ is_canceled e
unfolding is_canceled
is_canceled-wrap_all [] e = refl
is_canceled-wrap_all (m ∷ ms) e = is_canceled-wrap_all ms e

retryable-from_http_response :
    (dates : Dates) (resp : Response) (prefix : String)
    → (from_http_response dates resp prefix).retryable
      ≡ (resp.status_code == 429 || leb 500 resp.status_code)
unfolding from_http_response
retryable-from_http_response dates resp prefix = ground arith

as_api-api : (a : ApiError) → as_api (Error.api a) ≡ some a
unfolding as_api
as_api-api a = refl

is_retryable_of_api : (e : Error) (a : ApiError) → as_api e ≡ some a → is_retryable e ≡ a.retryable
unfolding is_retryable
is_retryable_of_api e a h = rw (h, is_retryable)

get_code_of_api : (e : Error) (a : ApiError) → as_api e ≡ some a → get_code e ≡ some a.code
unfolding get_code
get_code_of_api e a h = rw (h, get_code)

code-from_http_response :
    (dates : Dates) (resp : Response) (prefix : String)
    → (from_http_response dates resp prefix).code ≡ (classify_status resp.status_code).0
unfolding from_http_response
code-from_http_response dates resp prefix = refl

-- However many layers wrap the error of an HTTP response, the caller sees it as retryable exactly
-- when the status is 429 or at least 500, and reads the code that the status has.
pub is_retryable-http :
    (dates : Dates) (resp : Response) (prefix : String) (ms : List String)
    → (is_retryable (wrap_all ms (Error.api (from_http_response dates resp prefix)))
        ≡ (resp.status_code == 429 || leb 500 resp.status_code))
      × (get_code (wrap_all ms (Error.api (from_http_response dates resp prefix)))
          ≡ some (classify_status resp.status_code).0)
is_retryable-http dates resp prefix ms =
    let a = from_http_response dates resp prefix in
    let found : as_api (wrap_all ms (Error.api a)) ≡ some a =
      as_api-wrap_all ms (Error.api a) ∙ as_api-api a in
    (
      is_retryable_of_api _ a found ∙ retryable-from_http_response dates resp prefix,
      get_code_of_api _ a found ∙ ap some (code-from_http_response dates resp prefix),
    )

-- A cancelled context with no structured error in the chain is never retried, however it is wrapped.
pub is_retryable-canceled : (ms : List String) → is_retryable (wrap_all ms Error.canceled) ≡ false
unfolding is_retryable is_transient_native
is_retryable-canceled ms =
    rw (as_api-wrap_all ms Error.canceled, is_retryable)
      (rw (is_canceled-wrap_all ms Error.canceled, is_transient_native))

-- A `Retry-After` other than 0 is kept only for the status 429.
retry_after-http :
    (dates : Dates) (resp : Response) (prefix : String)
    → (resp.status_code == 429) ≡ false
    → (from_http_response dates resp prefix).retry_after ≡ pos 0
unfolding from_http_response
retry_after-http dates resp prefix h = ground arith
