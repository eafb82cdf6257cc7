-- ===== src/Errors/Tests.antt =====
-- Errors in a concrete store.
use yaraft.Prelude.{◌≢◌, ℕ, ◌≡◌, ◌⊎◌, ◌++◌, [], ◌∷◌, none, some, arith}
use yaraft.Outcome.{ok}
use yaraft.Errors.{ErrorInfo, ErrorS, Store, info, code_of, equals, append_text, append_value}
use yaraft.Errors.Equality.{value, same_value, equals_lem, append_text_lem}

-- A storage error "a", and a success that has a message.
abbrev store : Store
store = record { code = 2; msg = b'a' ∷ [] } ∷ record { code = 0; msg = b'b' ∷ [] } ∷ []

equals_lem_example :
    equals store (some 1) none ≡ ok (same_value (value store (some 1)) (value store none))
equals_lem_example = equals_lem store (some 1) none (omega arith) tt

append_text_lem_example :
    (st : Store) × (append_text (b'c' ∷ []) (some 0) store ≡ ok st)
    × ((a : ℕ) → code_of st (some a) ≡ code_of store (some a))
    × ((◌≡◌ {A = ErrorS} (some 0) none × (st ≡ store))
        ⊎ ((a : ℕ) × (i : ErrorInfo) × ◌≡◌ {A = ErrorS} (some 0) (some a)
            × (info store (some 0) ≡ ok i)
            × (info st (some 0) ≡ ok (record i { msg = i.msg ++ (b'c' ∷ []) }))
            × ((b : ℕ) → (a ≡ b) ⊎ (info st (some b) ≡ info store (some b)))))
    × ((fuel : ℕ)
        → (◌≡◌ {A = ErrorS} (some 0) none
            × (append_value fuel (b'c' ∷ []) (some 0) store ≡ some (ok store)))
          ⊎ (◌≢◌ {A = ErrorS} (some 0) none
              × (append_value fuel (b'c' ∷ []) (some 0) store ≡ none)))
append_text_lem_example = append_text_lem store (b'c' ∷ []) (some 0) (omega arith)
