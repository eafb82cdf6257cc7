-- ===== src/Util/Tests.antt =====
-- `limitSize` at concrete lists.
use yaraft.Prelude.{ℕ, suc, ◌≤◌, ◌<◌, ◌≡◌, refl, ◌⊎◌, List, [], ◌∷◌, take, arith}
use yaraft.Idl.{Entry, empty_entry, byte_size}
use yaraft.Util.{limit_loop, limit_size}
use yaraft.Util.Limit.{total_size, limit_size-IsLongest}

-- Entries of 12, 10 and 11 bytes.
abbrev three : List Entry
three =
    record empty_entry { payload = 1 ∷ 2 ∷ [] }
    ∷ empty_entry
    ∷ record empty_entry { payload = 3 ∷ [] }
    ∷ []

limit_size_two : limit_size 22 three ≡ take 2 three
unfolding limit_size limit_loop byte_size
limit_size_two = refl

limit_size_one : limit_size 0 three ≡ take 1 three
unfolding limit_size limit_loop byte_size
limit_size_one = refl

limit_size-IsLongest_example :
    (k : ℕ) × (limit_size 22 three ≡ take (suc k) three)
    × (k ≤ 2)
    × ((k ≡ 0) ⊎ (total_size (take (suc k) three) ≤ 22))
    × ((k ≡ 2) ⊎ (22 < total_size (take (suc (suc k)) three)))
unfolding byte_size
limit_size-IsLongest_example = limit_size-IsLongest 22 _ _ (omega arith)
