-- ===== src/Templatex.antt =====
-- pkg/templatex: the errors, the configuration and the options of its client.
pub mod Client
pub mod Health
pub mod Interleaving
pub mod Counts
pub mod Closing
pub mod Progress
pub mod Alone
pub mod Healthy
use natsx.Base.{
  ℕ, suc, Bool, true, false, ◌&&◌, ◌||◌, not, List, [], ◌∷◌, ◌++◌, Option, none, some, ◌==◌,
  is_empty, ℤ, is_negative, if◌then◌else◌,
}
use natsx.Base.Text.{Text, codes}
use natsx.Sanitize.{secret}

pub data ErrorKind : Type 0 where
  config validation connection unavailable timeout auth conflict rate_limit internal : ErrorKind

-- `string(kind)`
unfoldable pub kind_text : ErrorKind → Text
kind_text config = codes "config"
kind_text validation = codes "validation"
kind_text connection = codes "connection"
kind_text unavailable = codes "unavailable"
kind_text timeout = codes "timeout"
kind_text auth = codes "auth"
kind_text conflict = codes "conflict"
kind_text rate_limit = codes "rate_limit"
kind_text internal = codes "internal"

-- A Go error: nil, an `*Error` by its fields, or one of other code by whether it is
-- `context.DeadlineExceeded`, with its text.
pub data Error : Type 0 where
  nil : Error
  error : ErrorKind → Text → Text → Error → Bool → Error
  other : Bool → Text → Error

abbrev pub is_nil : Error → Bool
is_nil nil = true
is_nil (error _ _ _ _ _) = false
is_nil (other _ _) = false

-- `err.Error()`
unfoldable pub error_text : Error → Text
unfolding kind_text
error_text nil = []
error_text (error kind op message cause retryable) =
    let because = error_text cause in
    kind_text kind
    ++ (if is_empty op then [] else codes ": " ++ op)
    ++ (if is_empty message then [] else codes ": " ++ message)
    ++ (if is_empty message && not (is_nil cause) then codes ": " ++ because else [])
error_text (other _ text) = text

unfoldable pub unwrap : Error → Error
unwrap nil = nil
unwrap (error _ _ _ cause _) = cause
unwrap (other _ _) = nil

-- `newError`, which `WrapError` is too
unfoldable pub new_error : ErrorKind → Text → Text → Bool → Error → Error
unfolding error_text
new_error kind op message retryable cause =
    error kind op (if is_empty message && not (is_nil cause) then error_text cause else message)
      cause retryable

unfoldable pub validation_error : Text → Text → Error → Error
unfolding new_error
validation_error op message cause = new_error validation op message false cause

-- `errors.Is(err, context.DeadlineExceeded)`
abbrev pub is_deadline : Error → Bool
is_deadline nil = false
is_deadline (error _ _ _ cause _) = is_deadline cause
is_deadline (other deadline _) = deadline

unfoldable pub context_error : Text → Error → Error
unfolding new_error
context_error op cause =
    if is_deadline cause
    then new_error timeout op [] true cause
    else new_error unavailable op [] false cause

-- `errorKind`
unfoldable pub error_kind : Error → ErrorKind
error_kind nil = internal
error_kind (error kind _ _ _ _) = kind
error_kind (other _ _) = internal

pub record Config : Type 0 where
  pub name : Text
  pub timeout : ℤ
  pub secret : Text

unfoldable pub validate : Config → Error
unfolding validation_error
validate c =
    if is_empty c.name
    then validation_error (codes "Config.Validate") (codes "name is required")
        (other false (codes "name is required"))
    else if is_negative c.timeout
    then validation_error (codes "Config.Validate") (codes "timeout must not be negative")
        (other false (codes "timeout must not be negative"))
    else nil

unfoldable pub sanitize : Config → Config
sanitize c = record c { secret = secret c.secret }
