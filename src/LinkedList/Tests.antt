-- ===== src/LinkedList/Tests.antt =====
-- A list of two entries.
use osext.Common.{◌==◌, if◌then◌else◌, ◌≡◌, refl, arith, some, [], ◌∷◌}
use osext.LinkedList.{Entries}
use osext.LinkedList.Chains.{Chain}
use osext.LinkedList.{remove_entry}
use osext.LinkedList.Remove.{without, contains, remove_entry-without}
use osext.Common.{Bool, ℕ}

-- 100 points to 200; both hold the data 7.
abbrev entries : Entries
entries = record { data_of = λ q. 7; next = λ q. if q == 100 then 200 else 0 }

entries-Chain : Chain entries 100 (100 ∷ 200 ∷ [])
entries-Chain = (refl, omega arith, (refl, omega arith, refl))

remove_entry-without_example :
    (r : Bool × Entries × ℕ) × (remove_entry 4 100 200 entries ≡ some r)
    × Chain r.1 r.2 (without 200 (100 ∷ 200 ∷ []))
    × (r.0 ≡ contains 200 (100 ∷ 200 ∷ []))
remove_entry-without_example =
    remove_entry-without entries 4 100 200 (100 ∷ 200 ∷ []) (omega arith) (omega arith)
      entries-Chain ((omega arith, tt), (tt, tt))
