-- ===== src/Errors.antt =====
-- engine/aigoerr/aigoerr.go, and the error chains that `fmt.Errorf("…%w")` builds.
pub mod Chains
use Prim.Native.String.{◌++◌ as text_append}
use aigo.Base.{
  ℕ, ◌*◌, ◌^◌, String, Bool, true, false, ◌||◌, Option, none, some, ltb, leb, ◌==◌, str_eq,
  if◌then◌else◌,
}
use aigo.Base.Int.{ℤ, pos, negsuc, is_pos}
use aigo.Base.Number.{atoi, mul64}
use aigo.Base.Text.{trim_space}

-- `Code`
pub data Code : Type 0 where
  unknown invalid_input authentication quota_exceeded rate_limit server_error timeout unavailable :
      Code

-- The fields of `Error`, but for the wrapped original.
pub record ApiError : Type 0 where
  pub code : Code
  pub status_code : ℕ
  pub message : String
  pub retryable : Bool
  pub retry_after : ℤ

-- A Go error with its chain of wrapped errors, outermost first.
pub data Error : Type 0 where
  -- `errors.New`, a sentinel with its name, or another error that wraps nothing
  plain : String → Error
  -- `fmt.Errorf("msg: %w", err)`
  wrap : String → Error → Error
  -- `*aigoerr.Error` with `Err == nil`, and with a wrapped original
  api : ApiError → Error
  api_of : ApiError → Error → Error
  -- `context.Canceled`, `context.DeadlineExceeded`, `io.ErrUnexpectedEOF`
  canceled deadline_exceeded unexpected_eof : Error
  -- a `net.Error` and its `Timeout()`
  net : Bool → Error

-- A value or an error.
pub data Outcome {ℓ} (A : Type ℓ) : Type ℓ where
  ok : A → Outcome A
  err : Error → Outcome A

infixl 5 ◌>>=◌ ◌>>◌
abbrev pub ◌>>=◌ {ℓ κ} : {A : Type ℓ} {B : Type κ} → Outcome A → (A → Outcome B) → Outcome B
ok a >>= f = f a
err e >>= f = err e

abbrev pub ◌>>◌ {ℓ} : {B : Type ℓ} → Outcome (Unit {0}) → Outcome B → Outcome B
m >> k = m >>= λ _. k

-- `classifyStatus`
unfoldable pub classify_status : ℕ → Code × Bool
classify_status status =
    if status == 400
    then (Code.invalid_input, false)
    else if status == 401 || status == 403
    then (Code.authentication, false)
    else if status == 402
    then (Code.quota_exceeded, false)
    else if status == 429
    then (Code.rate_limit, true)
    else if leb 500 status
    then (Code.server_error, true)
    else (Code.unknown, false)

-- A `time.Second`, in nanoseconds.
abbrev pub second : ℕ
second = 1_000_000_000

-- What an HTTP date in the header is worth: `time.Until` of `http.ParseTime`, none if it does not
-- parse.
abbrev pub Dates : Type 0
Dates = String → Option ℤ

until : Option ℤ → ℤ
until none = pos 0
until (some d) = if is_pos d then d else pos 0

abbrev seconds : ℤ → ℤ
seconds (pos n) = mul64 n second
seconds (negsuc n) = pos 0

-- `parseRetryAfter` after its `TrimSpace`: whole seconds first, then a date, and 0 otherwise.
unfoldable pub delay_of : Option ℤ → Option ℤ → ℤ
unfolding until
delay_of none date = until date
delay_of (some secs) date = if is_pos secs then seconds secs else until date

-- `parseRetryAfter`
unfoldable pub parse_retry_after : Dates → String → ℤ
unfolding delay_of atoi trim_space
parse_retry_after dates val =
    let v = trim_space val in if str_eq v "" then pos 0 else delay_of (atoi v) (dates v)

-- `http.Response` as far as it is read: the status, its text and the `Retry-After` header.
pub record Response : Type 0 where
  pub status_code : ℕ
  pub status : String
  pub retry_after : String
  pub body : String

is_rate_limit : Code → Bool
is_rate_limit Code.rate_limit = true
is_rate_limit _ = false

-- `FromHTTPResponse`
unfoldable pub from_http_response : Dates → Response → String → ApiError
unfolding classify_status is_rate_limit
from_http_response dates resp prefix =
    let (code, retryable) = classify_status resp.status_code in
    record {
      code = code;
      status_code = resp.status_code;
      message = text_append prefix (
          text_append ": status "
            (text_append resp.status (text_append ": " (trim_space resp.body))));
      retryable = if is_rate_limit code then true else retryable;
      retry_after = if is_rate_limit code then parse_retry_after dates resp.retry_after else pos 0;
    }

-- `errors.As(err, &ae)`: the first `*aigoerr.Error` of the chain.
unfoldable pub as_api : Error → Option ApiError
as_api (Error.wrap m e) = as_api e
as_api (Error.api a) = some a
as_api (Error.api_of a e) = some a
as_api _ = none

-- `errors.Is` for the three sentinels, and `errors.As` for a `net.Error`.
pub is_canceled : Error → Bool
is_canceled (Error.wrap m e) = is_canceled e
is_canceled (Error.api_of a e) = is_canceled e
is_canceled Error.canceled = true
is_canceled _ = false

pub is_deadline_exceeded : Error → Bool
is_deadline_exceeded (Error.wrap m e) = is_deadline_exceeded e
is_deadline_exceeded (Error.api_of a e) = is_deadline_exceeded e
is_deadline_exceeded Error.deadline_exceeded = true
is_deadline_exceeded _ = false

pub is_unexpected_eof : Error → Bool
is_unexpected_eof (Error.wrap m e) = is_unexpected_eof e
is_unexpected_eof (Error.api_of a e) = is_unexpected_eof e
is_unexpected_eof Error.unexpected_eof = true
is_unexpected_eof _ = false

-- `errors.As(err, &netErr) && netErr.Timeout()`. `context.DeadlineExceeded` is a `net.Error` too.
pub is_net_timeout : Error → Bool
is_net_timeout (Error.wrap m e) = is_net_timeout e
is_net_timeout (Error.api_of a e) = is_net_timeout e
is_net_timeout (Error.net t) = t
is_net_timeout Error.deadline_exceeded = true
is_net_timeout _ = false

-- `IsTransientNative`
pub is_transient_native : Error → Bool
unfolding is_canceled is_deadline_exceeded is_net_timeout is_unexpected_eof
is_transient_native e =
    if is_canceled e
    then false
    else if is_deadline_exceeded e
    then true
    else if is_net_timeout e
    then true
    else if is_unexpected_eof e
    then true
    else false

-- `IsRetryable`
unfoldable pub is_retryable : Error → Bool
unfolding as_api is_transient_native
is_retryable e = elim (as_api e) [ some a ↦ a.retryable | none ↦ is_transient_native e ]

-- `GetCode`
pub get_code : Error → Option Code
unfolding as_api
get_code e = elim (as_api e) [ some a ↦ some a.code | none ↦ none ]
