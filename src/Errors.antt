-- ===== src/Errors.antt =====
-- pkg/natsx/errors.go, with the error values that the code meets: `Error` is Go's `error`, whose
-- `nil` is a value of it. The error type of pkg/natsx/ingest is a constructor here as well, since
-- the chains of `Unwrap` pass through both.
pub mod Chain
use natsx.Base.{
  ℕ, Bool, true, false, ◌&&◌, ◌||◌, not, [], ◌++◌, Option, none, some, String, ◌==◌, if◌then◌else◌,
  is_empty, ℤ,
}
use natsx.Base.Text.{Text, codes}
use natsx.Base.Decimal.{itoa}

pub data ErrorKind : Type 0 where
  config validation connection unavailable timeout auth conflict internal : ErrorKind

-- `string(kind)`
unfoldable pub kind_text : ErrorKind → Text
kind_text config = codes "config"
kind_text validation = codes "validation"
kind_text connection = codes "connection"
kind_text unavailable = codes "unavailable"
kind_text timeout = codes "timeout"
kind_text auth = codes "auth"
kind_text conflict = codes "conflict"
kind_text internal = codes "internal"

abbrev pub kind_number : ErrorKind → ℕ
kind_number config = 0
kind_number validation = 1
kind_number connection = 2
kind_number unavailable = 3
kind_number timeout = 4
kind_number auth = 5
kind_number conflict = 6
kind_number internal = 7

abbrev pub kind_eq : ErrorKind → ErrorKind → Bool
kind_eq a b = kind_number a == kind_number b

-- The error values of other packages that the code compares with by `errors.Is`; `unnamed` is any
-- other.
pub data Sentinel : Type 0 where
  context_canceled deadline_exceeded : Sentinel
  stream_name_already_in_use consumer_name_already_in_use : Sentinel
  stream_not_found consumer_not_found no_stream_response no_matching_stream : Sentinel
  jetstream_not_enabled jetstream_not_enabled_for_account : Sentinel
  consumer_deleted subject_mismatch : Sentinel
  connection_closed connection_reconnecting nats_timeout : Sentinel
  num_syntax num_range : Sentinel
  unnamed : Sentinel

abbrev pub sentinel_number : Sentinel → ℕ
sentinel_number context_canceled = 0
sentinel_number deadline_exceeded = 1
sentinel_number stream_name_already_in_use = 2
sentinel_number consumer_name_already_in_use = 3
sentinel_number stream_not_found = 4
sentinel_number consumer_not_found = 5
sentinel_number no_stream_response = 6
sentinel_number no_matching_stream = 7
sentinel_number jetstream_not_enabled = 8
sentinel_number jetstream_not_enabled_for_account = 9
sentinel_number consumer_deleted = 10
sentinel_number subject_mismatch = 11
sentinel_number connection_closed = 12
sentinel_number connection_reconnecting = 13
sentinel_number nats_timeout = 14
sentinel_number num_syntax = 15
sentinel_number num_range = 16
sentinel_number unnamed = 17

abbrev pub sentinel_eq : Sentinel → Sentinel → Bool
sentinel_eq a b = sentinel_number a == sentinel_number b

-- `natsx_error` is a `*natsx.Error` by its fields in order, `fetch_error` an `*ingest.FetchError`.
-- `foreign` is a value of other code: the sentinel that it is, its text, and what it unwraps to.
pub data Error : Type 0 where
  nil : Error
  natsx_error : ErrorKind → Text → Text → Error → Bool → Error
  fetch_error : Text → Text → Text → ℤ → Error → Error
  foreign : Sentinel → Text → Error → Error

abbrev pub is_nil : Error → Bool
is_nil nil = true
is_nil (natsx_error _ _ _ _ _) = false
is_nil (fetch_error _ _ _ _ _) = false
is_nil (foreign _ _ _) = false

abbrev pub show_bool : Bool → Text
show_bool true = codes "true"
show_bool false = codes "false"

-- `err.Error()`, the empty text at a nil `*Error`; `%v` prints a nil error as `<nil>`.
unfoldable pub error_text : Error → Text
unfolding kind_text itoa
error_text nil = []
error_text (natsx_error kind op message cause retryable) =
    kind_text kind
    ++ (if is_empty op then [] else codes ": " ++ op)
    ++ (if is_empty message
        then (if is_nil cause then [] else codes ": " ++ error_text cause)
        else codes ": " ++ message)
error_text (fetch_error subject stream consumer deliveries err) =
    codes "ingest: fetch error (subject="
    ++ subject
    ++ codes " stream="
    ++ stream
    ++ codes " consumer="
    ++ consumer
    ++ codes " deliveries="
    ++ itoa deliveries
    ++ codes "): "
    ++ (if is_nil err then codes "<nil>" else error_text err)
error_text (foreign _ text _) = text

unfoldable pub unwrap : Error → Error
unwrap nil = nil
unwrap (natsx_error _ _ _ cause _) = cause
unwrap (fetch_error _ _ _ _ err) = err
unwrap (foreign _ _ inner) = inner

-- What the code reads of the `*Error` that `errors.As` finds.
pub record Target : Type 0 where
  pub kind : ErrorKind
  pub retryable : Bool

-- `errors.As(err, &target)`: the first `*Error` of the chain.
unfoldable pub as_error : Error → Option Target
as_error nil = none
as_error (natsx_error kind _ _ _ retryable) = some (record { kind = kind; retryable = retryable })
as_error (fetch_error _ _ _ _ err) = as_error err
as_error (foreign _ _ inner) = as_error inner

-- `errors.Is(err, target)`
unfoldable pub is_error : Error → Sentinel → Bool
is_error nil target = false
is_error (natsx_error _ _ _ cause _) target = is_error cause target
is_error (fetch_error _ _ _ _ err) target = is_error err target
is_error (foreign id _ inner) target = sentinel_eq id target || is_error inner target

-- `wrapError`, which `WrapError` and `NewError` call.
unfoldable pub wrap_error : ErrorKind → Text → Text → Bool → Error → Error
wrap_error kind op message retryable cause =
    natsx_error kind op
      (if is_empty message && not (is_nil cause) then error_text cause else message) cause retryable

unfoldable pub new_error : ErrorKind → Text → Text → Bool → Error
unfolding wrap_error
new_error kind op message retryable = wrap_error kind op message retryable nil

unfoldable pub validation_error : Text → Text → Error → Error
unfolding wrap_error
validation_error op message cause = wrap_error validation op message false cause

unfoldable pub context_error : Text → Error → Error
unfolding wrap_error is_error
context_error op cause =
    if is_error cause deadline_exceeded
    then wrap_error timeout op [] true cause
    else wrap_error unavailable op [] false cause

unfoldable pub connection_error : Text → Error → Error
unfolding wrap_error
connection_error op cause = wrap_error connection op [] true cause

abbrev pub found_kind : Option Target → ErrorKind → Bool
found_kind none kind = false
found_kind (some target) kind = kind_eq target.kind kind

unfoldable pub is_kind : Error → ErrorKind → Bool
unfolding as_error
is_kind err kind = found_kind (as_error err) kind

abbrev pub kind_or_internal : Option Target → ErrorKind
kind_or_internal none = internal
kind_or_internal (some target) = target.kind

unfoldable pub error_kind : Error → ErrorKind
unfolding as_error
error_kind err = kind_or_internal (as_error err)

-- A pair `(value, error)` of which one half is meant.
pub data Result {ℓ} (A : Type ℓ) : Type ℓ where
  ok : A → Result A
  fail : Error → Result A

-- `if err := e; err != nil { return …, err }`, and then the rest.
abbrev pub returning {ℓ} : {A : Type ℓ} → Error → Result A → Result A
returning e rest = if is_nil e then rest else fail e
