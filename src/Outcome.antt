-- ===== src/Outcome.antt =====
-- include/yaraft/errors.h: what a call of the library ends in. `RAFT_LOG(PANIC, …)` and `RAFT_PANIC`
-- end it by an exception (src/stderr_logger.cc), and so does a span taken out of range.
use yaraft.Prelude.{◌≡◌, refl, Bool, true, false, Option, none, some}

-- The `error_s` constants of memory_storage_impl.h, ready.h and raw_node.h, and those of
-- `Config::Validate`.
pub data Error : Type 0 where
  compacted snap_out_of_date unavailable snapshot_temporarily_unavailable : Error
  proposal_dropped step_local_msg step_peer_not_found : Error
  invalid_argument : Error

-- `error_with<T>`, with `panic` for the exception and `fault` for a read that C++ leaves undefined.
pub data Outcome {ℓ} (A : Type ℓ) : Type ℓ where
  ok : A → Outcome A
  err : Error → Outcome A
  panic : Outcome A
  fault : Outcome A

infixl 5 ◌>>=◌ ◌>>◌
abbrev pub ◌>>=◌ {ℓ κ} : {A : Type ℓ} {B : Type κ} → Outcome A → (A → Outcome B) → Outcome B
ok a >>= f = f a
err e >>= f = err e
panic >>= f = panic
fault >>= f = fault

abbrev pub ◌>>◌ {ℓ} : {B : Type ℓ} → Outcome (Unit {0}) → Outcome B → Outcome B
m >> k = m >>= λ _. k

-- A chain that ends well ends well at each link.
pub bind-ok {ℓ κ} :
    {A : Type ℓ} {B : Type κ} (m : Outcome A) (f : A → Outcome B) {b : B}
    → (m >>= f) ≡ ok b
    → (a : A) × (m ≡ ok a) × (f a ≡ ok b)
bind-ok (ok a) f e = (a, refl, e)
bind-ok (err x) f e = cc
bind-ok panic f e = cc
bind-ok fault f e = cc

-- `if (test) RAFT_LOG(PANIC, …)`
abbrev pub panic_if : Bool → Outcome (Unit {0})
panic_if true = panic
panic_if false = ok tt

abbrev pub err_if : Bool → Error → Outcome (Unit {0})
err_if true e = err e
err_if false e = ok tt

-- An element access of a span or vector with no check.
abbrev pub or_fault {ℓ} : {A : Type ℓ} → Option A → Outcome A
or_fault none = fault
or_fault (some a) = ok a

-- `error_with::get_value`: an error in place of a value is a panic.
abbrev pub get_value {ℓ} : {A : Type ℓ} → Outcome A → Outcome A
get_value (ok a) = ok a
get_value (err e) = panic
get_value panic = panic
get_value fault = fault

-- `error_with::is_ok`, with the value where there is one.
abbrev pub attempt {ℓ} : {A : Type ℓ} → Outcome A → Outcome (Option A)
attempt (ok a) = ok (some a)
attempt (err e) = ok none
attempt panic = panic
attempt fault = fault

pub ok_is {ℓ} : {A : Type ℓ} {x y : A} → ok x ≡ ok y → x ≡ y
ok_is e = cc
