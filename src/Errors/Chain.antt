-- ===== src/Errors/Chain.antt =====
-- How the package's constructors, `errors.Is`, `errors.As` and `Error()` fit together.
use natsx.Base.{Bool, true, false, Option, some, ◌≡◌, refl, ◌⊎◌, arith}
use natsx.Base.Text.{Text}
use natsx.Errors.{
  ErrorKind, validation, connection, unavailable, timeout, Sentinel, Error, is_nil, unwrap,
  is_error, wrap_error, context_error, error_kind, as_error, Target, Result, ok, returning,
}

-- Wrapping hides nothing: the wrapped error has the given kind, `errors.Is` finds in it what it
-- finds in the cause and nothing else, and `Unwrap` gives the cause back.
pub wrap_error_lem :
    (kind : ErrorKind) (op message : Text) (retryable : Bool) (cause : Error)
    → (error_kind (wrap_error kind op message retryable cause) ≡ kind)
      × ((target : Sentinel)
          → is_error (wrap_error kind op message retryable cause) target ≡ is_error cause target)
      × (unwrap (wrap_error kind op message retryable cause) ≡ cause)
unfolding wrap_error error_kind is_error unwrap
wrap_error_lem kind op message retryable cause = (refl, λ target. refl, refl)

-- A first test that passes hands the result to the rest.
pub returning-eq-ok {ℓ} :
    {A : Type ℓ} (e : Error) (rest : Result A) {a : A}
    → returning e rest ≡ ok a
    → (is_nil e ≡ true) × (rest ≡ ok a)
returning-eq-ok e rest h = ground arith

abbrev target : ErrorKind → Bool → Option Target
target kind retryable = some (record { kind = kind; retryable = retryable })

-- The kinds of errors that an exchange with the server ends in, with what a caller may retry:
-- validation errors never, timeouts and connection errors always.
abbrev pub IsClassified : Error → Type 0
IsClassified err =
    (as_error err ≡ target validation false)
    ⊎ (as_error err ≡ target unavailable true)
    ⊎ (as_error err ≡ target unavailable false)
    ⊎ (as_error err ≡ target timeout true)
    ⊎ (as_error err ≡ target connection true)

pub context_error-IsClassified :
    (op : Text) (cause : Error)
    → IsClassified (context_error op cause) × (is_nil (context_error op cause) ≡ false)
unfolding context_error as_error
context_error-IsClassified op cause = ground arith
