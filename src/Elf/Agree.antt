-- ===== src/Elf/Agree.antt =====
-- The headers of a file depend on the bytes of the file only.
use osext.Common.{
  ℕ, zero, suc, ◌+◌, ◌*◌, ◌^◌, ◌≤◌, ◌<◌, ◌==◌, ◌||◌, ltb, leb, some, ◌≡◌, refl, arith, Bool-cases,
  inl, inr,
}
use mathlib.Core.Path.{subst}
use mathlib.Core.Option.{some-injective}
use osext.Common.Words.{add32}
use osext.Elf.Header.{read16, read32, Header, Elf, elf_read_header_mem}
use osext.Elf.Image.{file_size, file_end, load_header, find_load}

-- The two memories have the same `n` bytes from `a` on.
abbrev pub SameBytes : (a n : ℕ) → (mem mem' : ℕ → ℕ) → Type 0
SameBytes a n mem mem' = (q : ℕ) → a ≤ q → q < a + n → mem q ≡ mem' q

pub SameBytes-inside :
    (a n b k : ℕ) (mem mem' : ℕ → ℕ)
    → b ≤ a
    → a + n ≤ b + k
    → SameBytes b k mem mem'
    → SameBytes a n mem mem'
SameBytes-inside a n b k mem mem' l u h q p r = h q (omega arith) (omega arith)

read16-same : (mem mem' : ℕ → ℕ) (a : ℕ) → SameBytes a 2 mem mem' → read16 mem a ≡ read16 mem' a
unfolding read16
read16-same mem mem' a h =
    let e0 = h a (omega arith) (omega arith) in
    let e1 = h (a + 1) (omega arith) (omega arith) in rw (e0, e1) refl

pub read32-same : (mem mem' : ℕ → ℕ) (a : ℕ) → SameBytes a 4 mem mem' → read32 mem a ≡ read32 mem' a
unfolding read32
read32-same mem mem' a h =
    let e0 = h a (omega arith) (omega arith) in
    let e1 = h (a + 1) (omega arith) (omega arith) in
    let e2 = h (a + 2) (omega arith) (omega arith) in
    let e3 = h (a + 3) (omega arith) (omega arith) in rw (e0, e1, e2, e3) refl

pub header-same :
    (mem mem' : ℕ → ℕ) (s : ℕ)
    → SameBytes s 52 mem mem'
    → elf_read_header_mem mem s ≡ elf_read_header_mem mem' s
unfolding elf_read_header_mem
header-same mem mem' s h =
    let b : (i : ℕ) → i < 52 → mem (s + i) ≡ mem' (s + i) =
      λ i l. h (s + i) (omega arith) (omega arith) in
    let half : (i : ℕ) → i < 51 → read16 mem (s + i) ≡ read16 mem' (s + i) = λ i l.
      read16-same mem mem' (s + i)
        (SameBytes-inside (s + i) 2 s 52 mem mem' (omega arith) (omega arith) h) in
    let full : (i : ℕ) → i < 49 → read32 mem (s + i) ≡ read32 mem' (s + i) = λ i l.
      read32-same mem mem' (s + i)
        (SameBytes-inside (s + i) 4 s 52 mem mem' (omega arith) (omega arith) h) in
    let b0 = h s (omega arith) (omega arith) in
    let b1 = b 1 (omega arith) in
    let b2 = b 2 (omega arith) in
    let b3 = b 3 (omega arith) in
    let b4 = b 4 (omega arith) in
    let b5 = b 5 (omega arith) in
    let b6 = b 6 (omega arith) in
    let b7 = b 7 (omega arith) in
    let kind = half 0x10 (omega arith) in
    let set = half 0x12 (omega arith) in
    let version = full 0x14 (omega arith) in
    let entry = full 0x18 (omega arith) in
    let progs = full 0x1c (omega arith) in
    let sects = full 0x20 (omega arith) in
    let size = half 0x28 (omega arith) in
    let prog_size = half 0x2a (omega arith) in
    let prog_count = half 0x2c (omega arith) in
    let sect_size = half 0x2e (omega arith) in
    let sect_count = half 0x30 (omega arith) in
    let strtab = half 0x32 (omega arith) in
    rw
      (
        b0, b1, b2, b3, b4, b5, b6, b7, kind, set, version, entry, progs, sects, size, prog_size,
        prog_count, sect_size, sect_count, strtab,
      )
      refl

-- The file lies in the address space of 32 bits.
abbrev pub Fits : Elf → Type 0
Fits elf = elf.start + elf.pages * 4096 < 2 ^ 32

pub file_size_lem : (elf : Elf) → Fits elf → file_size elf ≡ elf.pages * 4096
unfolding file_size
file_size_lem elf h = omega arith

pub file_end_lem : (elf : Elf) → Fits elf → file_end elf ≡ elf.start + elf.pages * 4096
unfolding file_end
file_end_lem elf h = omega (arith, file_size_lem elf h, h)

-- The headers end before the addresses wrap.
load_header-same :
    (mem mem' : ℕ → ℕ) (elf : Elf) (size n p : ℕ)
    → Fits elf
    → p + n * size + 32 < 2 ^ 32
    → SameBytes elf.start (elf.pages * 4096) mem mem'
    → load_header mem elf size n p ≡ load_header mem' elf size n p
unfolding load_header
load_header-same mem mem' elf size zero p fits wrap h = refl
load_header-same mem mem' elf size (suc n) p fits wrap h =
    let next : add32 p size ≡ p + size = omega (arith, wrap) in
    let here : add32 p 32 ≡ p + 32 = omega (arith, wrap) in
    let rest = load_header-same mem mem' elf size n (p + size) fits (omega (arith, wrap)) h in
    let finish = file_end_lem elf fits in
    elim (Bool-cases (ltb p elf.start || leb (elf.start + elf.pages * 4096) (p + 32))) [
      | inl out ↦ rw (next, here, finish, out) refl
      | inr inside ↦
          let low : elf.start ≤ p = ground arith in
          let high : p + 32 < elf.start + elf.pages * 4096 = ground arith in
          let e =
            read32-same mem mem' p
              (SameBytes-inside p 4 elf.start (elf.pages * 4096) mem mem' low (omega arith) h) in
          rw (next, here, finish, inside, e, rest) refl
    ]

-- The program headers of the file end before the addresses wrap.
abbrev pub NoWrap : Elf → Header → Type 0
NoWrap elf h = elf.start + h.prog_table + h.prog_count * h.prog_size + 32 < 2 ^ 32

pub find_load-same :
    (mem mem' : ℕ → ℕ) (elf : Elf) (h : Header)
    → Fits elf
    → NoWrap elf h
    → SameBytes elf.start (elf.pages * 4096) mem mem'
    → find_load mem elf h ≡ find_load mem' elf h
unfolding find_load
find_load-same mem mem' elf h fits wrap same =
    let at : add32 elf.start h.prog_table ≡ elf.start + h.prog_table = omega (arith, wrap) in
    rw at (
      load_header-same mem mem' elf h.prog_size h.prog_count (elf.start + h.prog_table) fits wrap
        same)

load_header-inside :
    (mem : ℕ → ℕ) (elf : Elf) (size n p found : ℕ)
    → Fits elf
    → p + n * size + 32 < 2 ^ 32
    → load_header mem elf size n p ≡ some found
    → (elf.start ≤ found) × (found + 32 < elf.start + elf.pages * 4096)
unfolding load_header
load_header-inside mem elf size zero p found fits wrap e = absurd (let x : ⊥ = cc in x)
load_header-inside mem elf size (suc n) p found fits wrap e =
    let next : add32 p size ≡ p + size = omega (arith, wrap) in
    let here : add32 p 32 ≡ p + 32 = omega (arith, wrap) in
    let finish = file_end_lem elf fits in
    elim (Bool-cases (ltb p elf.start || leb (elf.start + elf.pages * 4096) (p + 32))) [
      | inl out ↦
          absurd (let f = rw (load_header, next, here, finish, out) at e in let x : ⊥ = cc in x)
      | inr inside ↦
          let low : elf.start ≤ p = ground arith in
          let high : p + 32 < elf.start + elf.pages * 4096 = ground arith in
          elim (Bool-cases (read32 mem p == 1)) [
            | inl load ↦
                subst (λ q. (elf.start ≤ q) × (q + 32 < elf.start + elf.pages * 4096))
                  (some-injective _ _ (rw (load_header, next, here, finish, inside, load) at e))
                  (low, high)
            | inr other ↦
                load_header-inside mem elf size n (p + size) found fits (omega (arith, wrap))
                  (rw (load_header, next, here, finish, inside, other) at e)
          ]
    ]

pub find_load-inside :
    (mem : ℕ → ℕ) (elf : Elf) (h : Header) (found : ℕ)
    → Fits elf
    → NoWrap elf h
    → find_load mem elf h ≡ some found
    → (elf.start ≤ found) × (found + 32 < elf.start + elf.pages * 4096)
unfolding find_load
find_load-inside mem elf h found fits wrap e =
    let at : add32 elf.start h.prog_table ≡ elf.start + h.prog_table = omega (arith, wrap) in
    load_header-inside mem elf h.prog_size h.prog_count (elf.start + h.prog_table) found fits wrap
      (rw at at e)
