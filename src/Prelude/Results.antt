-- ===== src/Prelude/Results.antt =====
-- Go's `(value, error)` results, with a panic as a third outcome.
use Prim.Native.String.{String}

pub data Error : Type 0 where
  nil_trace nil_span invalid_trace empty_trace_id no_span no_collector : Error
  no_trace : String → Error
  not_found : String → Error
  breaker_open half_open_limit unavailable nil_client context_done max_attempts : Error
  remote : String → Error
  file_error : String → Error

pub data Result {ℓ} (A : Type ℓ) : Type ℓ where
  ok : A → Result A
  err : Error → Result A
  panic : Result A

infixl 5 ◌>>=◌
abbrev pub ◌>>=◌ {ℓ κ} : {A : Type ℓ} {B : Type κ} → Result A → (A → Result B) → Result B
ok a >>= f = f a
err e >>= f = err e
panic >>= f = panic
