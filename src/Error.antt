-- ===== src/Error.antt =====
-- src/error.rs: the crate's error type, its view as an io error, and the wire-level error codes.
pub mod Codes
use net_mux.Base.{
  ℕ, String, Bool, true, false, Option, none, some, ◌≡◌, refl, ◌⊎◌, inl, inr, ◌==◌, if◌then◌else◌,
}

pub data ErrorCode : Type 0 where
  normal protocol_error internal_error flow_control_error stream_limit : ErrorCode
  invalid_version code_timeout : ErrorCode
  unknown : ℕ → ErrorCode

unfoldable pub as_u32 : ErrorCode → ℕ
as_u32 normal = 0
as_u32 protocol_error = 1
as_u32 internal_error = 2
as_u32 flow_control_error = 3
as_u32 stream_limit = 4
as_u32 invalid_version = 5
as_u32 code_timeout = 6
as_u32 (unknown v) = v

-- `From<u32> for ErrorCode`
unfoldable pub from_u32 : ℕ → ErrorCode
from_u32 v =
    if v == 0
    then normal
    else if v == 1
    then protocol_error
    else if v == 2
    then internal_error
    else if v == 3
    then flow_control_error
    else if v == 4
    then stream_limit
    else if v == 5
    then invalid_version
    else if v == 6
    then code_timeout
    else unknown v

-- The kinds of `std::io::Error` that the crate makes.
pub data ErrorKind : Type 0 where
  not_connected connection_reset timed_out invalid_data broken_pipe other : ErrorKind

-- `Error`, and an io error over a message or over an `Error`.
mutual
  pub data Error : Type 0 where
    session_closed : Error
    go_away : ErrorCode → Error
    stream_reset : ℕ → Error
    too_many_streams : ℕ → Error
    timeout : Error
    protocol : String → Error
    io : IoError → Error

  pub data IoError : Type 0 where
    of_message : ErrorKind → String → IoError
    of_error : ErrorKind → Error → IoError

-- `From<Error> for io::Error`
pub to_io_error : Error → IoError
to_io_error (io e) = e
to_io_error session_closed = of_error not_connected session_closed
to_io_error (go_away c) = of_error not_connected (go_away c)
to_io_error (stream_reset id) = of_error connection_reset (stream_reset id)
to_io_error timeout = of_error timed_out timeout
to_io_error (protocol m) = of_error invalid_data (protocol m)
to_io_error (too_many_streams n) = of_error other (too_many_streams n)

-- `Result<T>`
pub data Result {ℓ} (A : Type ℓ) : Type ℓ where
  ok : A → Result A
  err : (why : Error) → Result A

-- To split on a computed result and keep the equation.
pub Result-cases {ℓ} :
    {A : Type ℓ} (r : Result A) → ((a : A) × (r ≡ ok a)) ⊎ ((e : Error) × (r ≡ err e))
Result-cases (ok a) = inl (a, refl)
Result-cases (err e) = inr (e, refl)

-- `ok_or` of an option, and an early return where a test fails.
abbrev pub ok_or {ℓ} : {A : Type ℓ} → Option A → Error → Result A
ok_or (some a) why = ok a
ok_or none why = err why

abbrev pub ensure : Bool → Error → Result (Unit {0})
ensure c why = if c then ok tt else err why

-- The operator `?`
infixl 5 ◌>>=◌
abbrev pub ◌>>=◌ {ℓ κ} : {A : Type ℓ} {B : Type κ} → Result A → (A → Result B) → Result B
err why >>= next = err why
ok a >>= next = next a

infixl 5 ◌>>◌
abbrev pub ◌>>◌ {κ} : {B : Type κ} → Result (Unit {0}) → Result B → Result B
first >> next = first >>= λ done. next
