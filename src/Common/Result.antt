-- ===== src/Common/Result.antt =====
-- The outcome of a fallible function: a value, an `anyhow` error, or a panic (`expect`, a slice
-- off a character boundary).
use Prim.Native.Nat.{ℕ}
use mathlib.Core.Path.{◌≡◌, refl}
use mathlib.Core.List.{List}
use mathlib.Core.Option.{Option, none, some}

-- One constructor for each message that the program composes; `external` is the message of a
-- library's error, and `context` is one more layer put on by `with_context` or `map_err`.
pub data Error : Type 0 where
  external : List ℕ → Error
  context : List ℕ → Error → Error
  with_hint : Error → List ℕ → Error
  unknown_topic : List ℕ → Error
  unexpected_type : List ℕ → List ℕ → List ℕ → Error
  changed_type : List ℕ → List ℕ → List ℕ → Error
  payload_too_large : Error
  payload_size_overflow : Error
  object_size_overflow : Error
  invalid_wrapper : ℕ → ℕ → Error
  writer_finished : Error
  no_header : Error
  unsupported_profile : List ℕ → Error
  empty_library : Error
  missing_metadata : List ℕ → Error
  invalid_schema_set_hash : Error
  invalid_session_id : Error
  invalid_time_basis : List ℕ → Error
  metadata_after_message : Error
  no_metadata : Error
  no_schema : List ℕ → Error
  unknown_mcap_type : List ℕ → Error
  incompatible_contract : List ℕ → Error
  before_epoch : Error
  rate_not_positive : Error
  invalid_duration : Error
  payload_missing : Error
  payload_ambiguous : Error

pub data Result {ℓ} (A : Type ℓ) : Type ℓ where
  ok : A → Result A
  err : Error → Result A
  panic : Result A

infixl 5 ◌>>=◌ ◌>>◌
abbrev pub ◌>>=◌ {ℓ κ} : {A : Type ℓ} {B : Type κ} → Result A → (A → Result B) → Result B
ok a >>= f = f a
err e >>= f = err e
panic >>= f = panic

abbrev pub ◌>>◌ {ℓ κ} : {A : Type ℓ} {B : Type κ} → Result A → Result B → Result B
m >> k = m >>= λ _. k

module _ {ℓ} {A : Type ℓ} where
  -- `ok_or_else`
  abbrev pub ok_or : Error → Option A → Result A
  ok_or e none = err e
  ok_or e (some a) = ok a

  -- `expect`
  abbrev pub expect : Option A → Result A
  expect none = panic
  expect (some a) = ok a

  -- `map_err` and `with_context`
  abbrev pub map_err : (Error → Error) → Result A → Result A
  map_err f (ok a) = ok a
  map_err f (err e) = err (f e)
  map_err f panic = panic

-- To split on a result and keep the equation.
pub data IsCase {ℓ} {A : Type ℓ} (r : Result A) : Type ℓ where
  is_ok : (a : A) → r ≡ ok a → IsCase r
  is_err : (e : Error) → r ≡ err e → IsCase r
  is_panic : r ≡ panic → IsCase r

pub Result-cases {ℓ} : {A : Type ℓ} (r : Result A) → IsCase r
Result-cases (ok a) = is_ok a refl
Result-cases (err e) = is_err e refl
Result-cases panic = is_panic refl

-- The parts of a sequence that succeeds.
module _ {ℓ κ} {A : Type ℓ} {B : Type κ} (next : A → Result B) (b : B) where
  pub bind_ok : (r : Result A) → (r >>= next) ≡ ok b → (a : A) × (r ≡ ok a) × (next a ≡ ok b)
  bind_ok (err e) h = cc
  bind_ok panic h = cc
  bind_ok (ok a) h = (a, refl, h)

-- A failure is no success.
pub err_not_ok : {A : Type 0} {a : A} {e : Error} → ◌≡◌ {A = Result A} (err e) (ok a) → ⊥
err_not_ok h = cc

pub panic_not_ok : {A : Type 0} {a : A} → ◌≡◌ {A = Result A} panic (ok a) → ⊥
panic_not_ok h = cc
