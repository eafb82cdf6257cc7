-- ===== src/Errors.antt =====
-- include/yaraft/errors.h: `error_code` and `error_s`. An `error_s` is a shared pointer to its code and its
-- message; here it is an address in a store, or none for the null pointer. Copies share the address, and
-- `operator<<` writes through it. The text that a stream prints for another value is a parameter.
pub mod Equality
mod Tests
use yaraft.Prelude.{
  zero, ℕ, suc, ◌+◌, Bool, true, false, ◌&&◌, List, [], ◌∷◌, ◌++◌, Option, none, some, ◌==◌,
  if◌then◌else◌, length, get_elem?, set, Bytes, bytes_eq,
}
use yaraft.Outcome.{Outcome, ok, panic, ◌>>=◌, or_fault}

abbrev pub err_ok : ℕ
err_ok = 0

abbrev pub err_invalid_argument : ℕ
err_invalid_argument = 1

abbrev pub err_raft_storage : ℕ
err_raft_storage = 2

abbrev pub err_raft_rawnode : ℕ
err_raft_rawnode = 3

-- The names of the codes; `assert(false)` for any other.
unfoldable pub code_name : ℕ → Outcome Bytes
code_name n =
    if n == 0
    then ok (b'E' ∷ b'R' ∷ b'R' ∷ b'_' ∷ b'O' ∷ b'K' ∷ [])
    else if n == 1
    then ok (
        b'E' ∷ b'R' ∷ b'R' ∷ b'_' ∷ b'I' ∷ b'N' ∷ b'V' ∷ b'A' ∷ b'L' ∷ b'I' ∷ b'D' ∷ b'_' ∷ b'A'
        ∷ b'R' ∷ b'G' ∷ b'U' ∷ b'M' ∷ b'E' ∷ b'N' ∷ b'T' ∷ [])
    else if n == 2
    then ok (
        b'E' ∷ b'R' ∷ b'R' ∷ b'_' ∷ b'R' ∷ b'A' ∷ b'F' ∷ b'T' ∷ b'_' ∷ b'S' ∷ b'T' ∷ b'O' ∷ b'R'
        ∷ b'A' ∷ b'G' ∷ b'E' ∷ [])
    else if n == 3
    then ok (
        b'E' ∷ b'R' ∷ b'R' ∷ b'_' ∷ b'R' ∷ b'A' ∷ b'F' ∷ b'T' ∷ b'_' ∷ b'R' ∷ b'A' ∷ b'W' ∷ b'N'
        ∷ b'O' ∷ b'D' ∷ b'E' ∷ [])
    else panic

pub record ErrorInfo : Type 0 where
  pub code : ℕ
  pub msg : Bytes

-- The store of the `error_info`s.
abbrev pub Store : Type 0
Store = List ErrorInfo

abbrev pub ErrorS : Type 0
ErrorS = Option ℕ

-- `make(code, reason)`
unfoldable pub make : ℕ → Bytes → Store → Store × ErrorS
make code reason st = (st ++ (record { code = code; msg = reason } ∷ []), some (length st))

-- `make(code)`
unfoldable pub make_plain : ℕ → Store → Store × ErrorS
make_plain code st = if code == err_ok then (st, none) else make code [] st

-- What the pointer points to.
unfoldable pub info : Store → ErrorS → Outcome ErrorInfo
info st none = or_fault none
info st (some a) = or_fault (get_elem? st a)

unfoldable pub is_ok : Store → ErrorS → Outcome Bool
is_ok st none = ok true
is_ok st (some a) = info st (some a) >>= λ i. ok (i.code == err_ok)

unfoldable pub code_of : Store → ErrorS → Outcome ℕ
code_of st none = ok err_ok
code_of st (some a) = info st (some a) >>= λ i. ok i.code

unfoldable pub is_empty : Bytes → Bool
is_empty [] = true
is_empty (b ∷ bs) = false

unfoldable pub description : Store → ErrorS → Outcome Bytes
description st none = code_name err_ok
description st (some a) = info st (some a) >>= λ i.
    code_name i.code >>= λ name. ok (if is_empty i.msg then name else name ++ (b':' ∷ b' ' ∷ i.msg))

-- `operator<<(const char[])`
unfoldable pub append_text : Bytes → ErrorS → Store → Outcome Store
append_text text none st = ok st
append_text text (some a) st =
    info st (some a) >>= λ i. ok (set st a (record i { msg = i.msg ++ text }))

-- `operator<<(T)` for the printed value `text`, run for `fuel` calls, with `none` where these do not suffice: what it
-- prints is a `std::string`, for which `(*this) << oss.str()` is a call of this template again.
unfoldable pub append_value : ℕ → Bytes → ErrorS → Store → Option (Outcome Store)
append_value fuel text none st = some (ok st)
append_value zero text (some a) st = none
append_value (suc fuel) text (some a) st = append_value fuel text (some a) st

unfoldable pub same_address : ErrorS → ErrorS → Bool
same_address none none = true
same_address (some a) (some b) = a == b
same_address _ _ = false

-- `operator==`; the message of the right side is read only where the codes agree.
unfoldable pub equals : Store → ErrorS → ErrorS → Outcome Bool
equals st lhs rhs =
    if same_address lhs rhs
    then ok true
    else (is_ok st lhs >>= λ fine.
        if fine
        then is_ok st rhs
        else (code_of st lhs >>= λ c. code_of st rhs >>= λ d.
            if c == d
            then (info st lhs >>= λ i. info st rhs >>= λ j. ok (bytes_eq i.msg j.msg))
            else ok false))
