-- ===== src/Errors/Equality.antt =====
-- The equality of errors, and the sharing of their messages.
use yaraft.Prelude.{
  ℕ, zero, suc, ◌<◌, ◌≡◌, ◌≢◌, refl, sym, ◌⊎◌, inl, inr, Bool, true, false, ◌&&◌, ◌++◌, Option,
  none, some, ◌==◌, if◌then◌else◌, length, get_elem?, set, get_elem?_within, get_elem?_bound,
  get_elem?-set_self, get_elem?-set_ne, ap, subst, ℕ_discrete, Bytes, bytes_eq, bytes_eq_self,
  Bool-cases, arith,
}
use yaraft.Outcome.{ok}
use yaraft.Errors.{
  ErrorInfo, Store, ErrorS, err_ok, info, is_ok, code_of, append_text, append_value, same_address,
  equals,
}

-- The pointer is null or points into the store.
abbrev pub IsLive : Store → ErrorS → Type 0
IsLive st none = Unit {0}
IsLive st (some a) = a < length st

-- A success is all one, and an error is its code and its message.
abbrev seen : ErrorInfo → Option ErrorInfo
seen i = if i.code == err_ok then none else some i

abbrev seen_of : Option ErrorInfo → Option ErrorInfo
seen_of none = none
seen_of (some i) = seen i

abbrev pub value : Store → ErrorS → Option ErrorInfo
value st none = none
value st (some a) = seen_of (get_elem? st a)

-- All successes are equal, and errors are equal by their code and their message.
abbrev pub same_value : Option ErrorInfo → Option ErrorInfo → Bool
same_value none none = true
same_value (some i) (some j) = (i.code == j.code) && bytes_eq i.msg j.msg
same_value _ _ = false

same_value_self : (i : ErrorInfo) → same_value (seen i) (seen i) ≡ true
same_value_self i = ground (arith, bytes_eq_self i.msg)

equals_same :
    (st : Store) (a b : ℕ) (i j : ErrorInfo)
    → a ≡ b
    → get_elem? st a ≡ some i
    → get_elem? st b ≡ some j
    → same_value (seen i) (seen j) ≡ true
equals_same st a b i j same e f =
    let one : i ≡ j = cc in subst (λ x. same_value (seen i) (seen x) ≡ true) one (same_value_self i)

-- `operator==` never reads through a null pointer, and the comparison of the addresses in front
-- changes no answer: successes are equal, whether null or made with the code of success, and errors are
-- equal exactly when their codes and messages are. Both pointers are null or live.
pub equals_lem :
    (st : Store) (lhs rhs : ErrorS)
    → IsLive st lhs
    → IsLive st rhs
    → equals st lhs rhs ≡ ok (same_value (value st lhs) (value st rhs))
unfolding equals same_address is_ok code_of info
equals_lem st none none h k = refl
equals_lem st none (some b) h k = let (j, f) = get_elem?_within st b k in rw f (ground arith)
equals_lem st (some a) none h k = let (i, e) = get_elem?_within st a h in rw e (ground arith)
equals_lem st (some a) (some b) h k =
    let (i, e) = get_elem?_within st a h in
    let (j, f) = get_elem?_within st b k in
    elim (Bool-cases (a == b)) [
      | inl same ↦ rw (same, e, f) (sym (ap ok (equals_same st a b i j (ground arith) e f)))
      | inr other ↦ rw (other, e, f) (ground arith)
    ]

code_kept :
    (st : Store) (a b : ℕ) (i i' : ErrorInfo)
    → get_elem? st a ≡ some i
    → i'.code ≡ i.code
    → code_of (set st a i') (some b) ≡ code_of st (some b)
unfolding code_of info
code_kept st a b i i' e c = elim (ℕ_discrete a b) [
  | yes same ↦
      let e' : get_elem? st b ≡ some i = subst (λ x. get_elem? st x ≡ some i) same e in
      let n : get_elem? (set st a i') b ≡ some i' =
        subst (λ x. get_elem? (set st a i') x ≡ some i') same
          (get_elem?-set_self st a i' (get_elem?_bound st a e)) in
      rw (e', n) (ap ok c)
  | no other ↦ rw (get_elem?-set_ne st a b i' other) refl
]

others_kept :
    (st : Store) (a b : ℕ) (i : ErrorInfo)
    → (a ≡ b) ⊎ (info (set st a i) (some b) ≡ info st (some b))
unfolding info
others_kept st a b i = elim (ℕ_discrete a b) [
  | yes same ↦ inl same
  | no other ↦ inr (rw (get_elem?-set_ne st a b i other) refl)
]

append_value_lost :
    (fuel : ℕ) (text : Bytes) (a : ℕ) (st : Store) → append_value fuel text (some a) st ≡ none
unfolding append_value
append_value_lost zero text a st = refl
append_value_lost (suc fuel) text a st = append_value_lost fuel text a st

append_value_ends :
    (text : Bytes) (err : ErrorS) (st : Store) (fuel : ℕ)
    → ((err ≡ none) × (append_value fuel text err st ≡ some (ok st)))
      ⊎ ((err ≢ none) × (append_value fuel text err st ≡ none))
unfolding append_value
append_value_ends text none st fuel = inl (refl, refl)
append_value_ends text (some a) st fuel = inr (ground arith, append_value_lost fuel text a st)

-- operator<<(const char[]) on an error writes a message that every copy of the error shows, and leaves the other
-- errors, and every code, as they were; the null pointer of a success it leaves alone. The template operator<<(T)
-- leaves the null pointer of a success alone, and on an error it calls itself without end, so that no number of calls
-- is enough. The pointer is null or live.
pub append_text_lem :
    (st : Store) (text : Bytes) (err : ErrorS)
    → IsLive st err
    → (st' : Store) × (append_text text err st ≡ ok st')
      × ((a : ℕ) → code_of st' (some a) ≡ code_of st (some a))
      × (((err ≡ none) × (st' ≡ st))
          ⊎ ((a : ℕ) × (i : ErrorInfo) × (err ≡ some a)
              × (info st err ≡ ok i)
              × (info st' err ≡ ok (record i { msg = i.msg ++ text }))
              × ((b : ℕ) → (a ≡ b) ⊎ (info st' (some b) ≡ info st (some b)))))
      × ((fuel : ℕ)
          → ((err ≡ none) × (append_value fuel text err st ≡ some (ok st)))
            ⊎ ((err ≢ none) × (append_value fuel text err st ≡ none)))
unfolding append_text info code_of
append_text_lem st text none h =
    (st, refl, (λ a. refl), inl (refl, refl), append_value_ends text none st)
append_text_lem st text (some a) h =
    let (i, e) = get_elem?_within st a h in
    let i' : ErrorInfo = record i { msg = i.msg ++ text } in
    (
      set st a i',
      rw e refl,
      (λ b. code_kept st a b i i' e refl),
      inr (
        a,
        i,
        refl,
        rw e refl,
        rw (get_elem?-set_self st a i' h) refl,
        λ b. others_kept st a b i',
      ),
      append_value_ends text (some a) st,
    )
