-- ===== src/Virtual/Freed.antt =====
-- The pages that are freed with a coarse page table.
use osext.Common.{ℕ, zero, suc, ◌+◌, ◌*◌, ◌/◌, ◌%◌, ◌<◌, false, ◌≡◌, refl, ◌∙◌, arith, some}
use mathlib.Core.Path.{subst}
use osext.Physical.{Table, set_page_used_bit}
use osext.Virtual.Space.{Machine, read_word}
use osext.Virtual.Map.{free_pages_loop, free_pages_from_coarse_page_table}

-- The words of the first `n` rounds are 0.
skip_empty :
    (n k r adr next : ℕ) (m : Machine) (t : Table)
    → r ≡ n + k
    → next ≡ adr + 4 * n
    → ((i : ℕ) → i < n → read_word m (adr + 4 * i) ≡ 0)
    → free_pages_loop r adr m t ≡ free_pages_loop k next m t
unfolding free_pages_loop
skip_empty zero k r adr next m t e a h =
    let q : r ≡ k = omega (arith, e) in let b : next ≡ adr = omega (arith, a) in rw (q, b) refl
skip_empty (suc n) k r adr next m t e a h =
    let q : r ≡ suc (n + k) = omega (arith, e) in
    let z : read_word m adr ≡ 0 =
      subst (λ a. read_word m a ≡ 0) (omega arith) (h 0 (omega arith)) in
    rw (q, z)
      (skip_empty n k (n + k) (adr + 4) next m t refl (omega (arith, a))
        (λ i l. subst (λ a. read_word m a ≡ 0) (omega arith) (h (suc i) (omega arith))))

-- The word is that of a small page.
used_page :
    (n adr w : ℕ) (m : Machine) (t : Table)
    → read_word m adr ≡ w
    → w % 4 ≡ 2
    → free_pages_loop (suc n) adr m t
      ≡ free_pages_loop n (adr + 4) m (set_page_used_bit (w / 4096 * 4096) false t)
unfolding free_pages_loop
used_page n adr w m t e h = rw (e, h) refl

no_rounds : (adr : ℕ) (m : Machine) (t : Table) → free_pages_loop 0 adr m t ≡ some t
unfolding free_pages_loop
no_rounds adr m t = refl

-- A coarse page table has 256 words. With a table of zeros, freePagesFromCoarsePageTable clears the
-- used bit of the page that the first word behind the table, that of a small page, describes, when
-- the 767 words behind that are zero.
pub free_pages-behind_table :
    (cpt w : ℕ) (m : Machine) (t : Table)
    → ((i : ℕ) → i < 256 → read_word m (cpt + 4 * i) ≡ 0)
    → read_word m (cpt + 1024) ≡ w
    → w % 4 ≡ 2
    → ((i : ℕ) → i < 767 → read_word m (cpt + 1028 + 4 * i) ≡ 0)
    → free_pages_from_coarse_page_table cpt m t ≡ some (set_page_used_bit (w / 4096 * 4096) false t)
unfolding free_pages_from_coarse_page_table
free_pages-behind_table cpt w m t before here small after =
    skip_empty 256 768 1024 cpt (cpt + 1024) m t refl refl before
    ∙ used_page 767 (cpt + 1024) w m t here small
    ∙ skip_empty 767 0 767 (cpt + 1024 + 4) (cpt + 1028 + 3068) m _ refl (omega arith)
        (λ i l. subst (λ a. read_word m a ≡ 0) (omega arith) (after i l))
    ∙ no_rounds (cpt + 1028 + 3068) m _
