-- ===== src/LinkedList.antt =====
-- The linked lists of kernel/LinkedList.c. An entry is given by its address, 0 for `NULL`.
use osext.Common.{
  ℕ, zero, suc, ◌+◌, Bool, true, false, ◌==◌, if◌then◌else◌, Option, none, some, List, [], ◌∷◌,
}
use mathlib.Core.Option
mod Chains
mod Remove
mod Tests

-- The entries that exist.
pub record Entries : Type 0 where
  pub data_of : ℕ → ℕ
  pub next : ℕ → ℕ

unfoldable pub set_next : ℕ → ℕ → Entries → Entries
set_next e p st = record st { next = λ q. if q == e then p else st.next q }

-- The results are the entries and the new value of `*list`.
unfoldable pub add_entry : (list e : ℕ) → Entries → Entries × ℕ
add_entry list e st = if list == 0 then (set_next e 0 st, e) else (set_next e list st, e)

-- `e` comes behind the entry `p`. The test of the source is for `e` being `NULL`.
unfoldable pub unlinked : (p e : ℕ) → Entries → Entries
unlinked p e st = if e == 0 then set_next p 0 st else set_next p (st.next e) st

-- The search for the entry before `e`, on fuel; `none` means that it ran out.
unfoldable pub unlink_entry : (fuel next e : ℕ) → Entries → Option (Bool × Entries)
unlink_entry zero next e st = none
unlink_entry (suc fuel) next e st =
    let rest = unlink_entry fuel (st.next next) e st in
    if next == 0
    then some (false, st)
    else if st.next next == e
    then some (true, unlinked next (st.next next) st)
    else rest

-- Whether the entry was found, the entries, and the new value of `*list`.
unfoldable pub remove_entry : (fuel list e : ℕ) → Entries → Option (Bool × Entries × ℕ)
remove_entry fuel list e st =
    if list == e
    then some (true, st, st.next list)
    else elim (unlink_entry fuel list e st) [ none ↦ none | some r ↦ some (r.0, r.1, list) ]

-- The loop of `getLinkedListEntry`: `n` rounds are left.
unfoldable pub follow : (n next : ℕ) → Entries → ℕ
follow zero next st = next
follow (suc n) next st =
    let rest = follow n (st.next next) st in if st.next next == 0 then 0 else rest

unfoldable pub get_entry : (list index : ℕ) → Entries → ℕ
get_entry list index st = if list == 0 then 0 else follow index list st

-- The entry, 0 if there is none, and the index. `none` means that the fuel ran out.
unfoldable pub search_from : (fuel next d i : ℕ) → Entries → Option (ℕ × ℕ)
search_from zero next d i st = none
search_from (suc fuel) next d i st =
    let rest = search_from fuel (st.next next) d (i + 1) st in
    if next == 0 then some (0, 0) else if st.data_of next == d then some (next, i) else rest

unfoldable pub search_entry : (fuel list d : ℕ) → Entries → Option (ℕ × ℕ)
search_entry fuel list d st = search_from fuel list d 0 st

-- The entries that are freed, in order.
unfoldable pub destroy_list : (fuel list : ℕ) → Entries → Option (List ℕ)
destroy_list zero next st = none
destroy_list (suc fuel) next st =
    let rest = Option.map (λ es. next ∷ es) (destroy_list fuel (st.next next) st) in
    if next == 0 then some [] else rest
