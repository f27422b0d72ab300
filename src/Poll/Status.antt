-- ===== src/Poll/Status.antt =====
-- status.go: the normalised status of a remote task.
use aigo.Base.{String, ◌≡◌, refl, Bool, true, false, List, [], ◌∷◌, some_of, if◌then◌else◌}
use aigo.Base.Codes.{codes, codes_eq, lower_codes}
use aigo.Base.Text.{trim_space, is_blank, is_space}

-- `TaskStatus`
pub data TaskStatus : Type 0 where
  pending running success failed cancelled : TaskStatus

-- `String`
pub to_string : TaskStatus → String
to_string TaskStatus.pending = "pending"
to_string TaskStatus.running = "running"
to_string TaskStatus.success = "success"
to_string TaskStatus.failed = "failed"
to_string TaskStatus.cancelled = "cancelled"

-- `Done`
pub is_done : TaskStatus → Bool
is_done TaskStatus.pending = false
is_done TaskStatus.running = false
is_done _ = true

abbrev success_words : List String
success_words =
    "success" ∷ "succeed" ∷ "succeeded" ∷ "completed" ∷ "complete" ∷ "done" ∷ "finished" ∷ []

abbrev failed_words : List String
failed_words = "failed" ∷ "fail" ∷ "failure" ∷ "error" ∷ "errored" ∷ []

abbrev cancelled_words : List String
cancelled_words = "cancelled" ∷ "canceled" ∷ "cancel" ∷ "aborted" ∷ "timeout" ∷ "timed_out" ∷ []

abbrev pending_words : List String
pending_words =
    "pending" ∷ "queued" ∷ "queue" ∷ "waiting" ∷ "not-started" ∷ "not_started" ∷ "created"
    ∷ "create" ∷ "submitted" ∷ "preparing" ∷ "scheduled" ∷ []

is_word : String → List String → Bool
is_word raw words = some_of (λ w. codes_eq (lower_codes (trim_space raw)) (codes w)) words

status_of : Bool → Bool → Bool → Bool → TaskStatus
status_of s f c p =
    if s
    then TaskStatus.success
    else if f
    then TaskStatus.failed
    else if c
    then TaskStatus.cancelled
    else if p
    then TaskStatus.pending
    else TaskStatus.running

-- `MapStatus`; the running words and the default have one answer.
pub map_status : String → TaskStatus
unfolding is_word status_of
map_status raw =
    status_of (is_word raw success_words) (is_word raw failed_words) (is_word raw cancelled_words)
      (is_word raw pending_words)

-- Each status is read back from its own name.
pub map_status-to_string : (s : TaskStatus) → map_status (to_string s) ≡ s
unfolding map_status to_string lower_codes trim_space is_blank is_space
map_status-to_string TaskStatus.pending = refl
map_status-to_string TaskStatus.running = refl
map_status-to_string TaskStatus.success = refl
map_status-to_string TaskStatus.failed = refl
map_status-to_string TaskStatus.cancelled = refl
