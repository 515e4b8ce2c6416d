-- ===== src/Sync/Counting.antt =====
-- The references to a lock.
use osext.Common.{
  ℕ, ◌+◌, ◌-◌, ◌^◌, ◌≤◌, ◌<◌, Bool, true, false, ◌==◌, if◌then◌else◌, Option, some, ◌≡◌, refl, ap,
  ◌∙◌, arith, Bool-cases, inl, inr,
}
use osext.Common.Words.{sub32}
use osext.Sync.Interrupts.{IrqState, irq_save_state, irq_disable, irq_restore_state}
use osext.Sync.Lock.{
  Lock, lock_create, guarded, count_reference, drop_reference, count_lock, drop_lock,
  lock_reference, lock_unreference, lock_lock, lock_unlock,
}

if_itself : (b : Bool) → (if b then true else false) ≡ b
if_itself true = refl
if_itself false = refl

pub restored : (cpu : IrqState) → irq_restore_state (irq_save_state cpu) (irq_disable cpu) ≡ cpu
unfolding irq_restore_state irq_save_state irq_disable
restored cpu =
    ap (λ i. record { irq = i; fiq = if cpu.fiq then true else false }) (if_itself cpu.irq)
    ∙ ap (λ f. record { irq = cpu.irq; fiq = f }) (if_itself cpu.fiq)

-- The users of a lock hold `references` to it, and use it only with one.
pub record Used : Type 0 where
  pub lock : Option Lock
  pub cpu : IrqState
  pub references : ℕ

pub data Step (u : Used) : Used → Type 0 where
  referenced :
      1 ≤ u.references
      → u.references + 1 < 2 ^ 32
      → Step u (
          let r = lock_reference u.lock u.cpu in
          record { lock = r.0; cpu = r.1; references = u.references + 1 })
  unreferenced :
      1 ≤ u.references
      → Step u (
          let r = lock_unreference u.lock u.cpu in
          record { lock = r.0; cpu = r.1; references = u.references - 1 })
  locked :
      1 ≤ u.references
      → Step u (
          let r = lock_lock u.lock u.cpu in
          record { lock = r.0; cpu = r.1; references = u.references })
  unlocked :
      1 ≤ u.references
      → Step u (
          let r = lock_unlock u.lock u.cpu in
          record { lock = r.0; cpu = r.1; references = u.references })

pub data Reach (u : Used) : Used → Type 0 where
  start : Reach u u
  next : {v w : Used} → Reach u v → Step v w → Reach u w

-- The lock counts its references, and is freed when there is none.
pub record Counted (cpu : IrqState) (u : Used) : Type 0 where
  pub lock : Lock
  pub exists : u.lock ≡ some lock
  pub counted : lock.ref_count ≡ u.references
  pub bounded : u.references < 2 ^ 32
  pub freed : lock.freed ≡ (u.references == 0)
  pub same_cpu : u.cpu ≡ cpu

guarded-Counted :
    (cpu : IrqState) (u : Used) (f : Lock → Lock) (n : ℕ) (c : Counted cpu u)
    → (f c.lock).ref_count ≡ n
    → n < 2 ^ 32
    → (f c.lock).freed ≡ (n == 0)
    → Counted cpu (record {
      lock = (guarded f u.lock u.cpu).0;
      cpu = (guarded f u.lock u.cpu).1;
      references = n;
    })
unfolding guarded
guarded-Counted cpu u f n c e b z =
    let q = c.exists in
    rw q (record {
      lock = f c.lock;
      exists = refl;
      counted = e;
      bounded = b;
      freed = z;
      same_cpu = restored u.cpu ∙ c.same_cpu;
    })

Step-Counted : (cpu : IrqState) (u v : Used) → Step u v → Counted cpu u → Counted cpu v
unfolding lock_reference lock_unreference lock_lock lock_unlock count_reference drop_reference
    count_lock drop_lock
Step-Counted cpu u v (referenced l h) c =
    guarded-Counted cpu u count_reference (u.references + 1) c (omega (arith, c.counted, h)) h
      (c.freed ∙ ground (arith, l))
Step-Counted cpu u v (unreferenced l) c =
    let n : sub32 c.lock.ref_count 1 ≡ u.references - 1 = omega (arith, c.counted, c.bounded, l) in
    let f = c.freed in
    elim (Bool-cases (u.references - 1 == 0)) [
      | inl e ↦
          guarded-Counted cpu u drop_reference (u.references - 1) c (rw (n, e) refl)
            (omega (arith, c.bounded)) (rw (n, e) refl)
      | inr e ↦
          guarded-Counted cpu u drop_reference (u.references - 1) c (rw (n, e) refl)
            (omega (arith, c.bounded)) (rw (n, e) (f ∙ ground (arith, l)))
    ]
Step-Counted cpu u v (locked l) c =
    guarded-Counted cpu u count_lock u.references c c.counted c.bounded c.freed
Step-Counted cpu u v (unlocked l) c = elim (Bool-cases (c.lock.lock_count == 0)) [
  | inl e ↦ guarded-Counted cpu u drop_lock u.references c (rw e c.counted) c.bounded (rw e c.freed)
  | inr e ↦ guarded-Counted cpu u drop_lock u.references c (rw e c.counted) c.bounded (rw e c.freed)
]

-- From a new lock with its one reference on, after any sequence of calls with a reference, fewer
-- than 2^32 of them at a time, the lock counts its references, is freed exactly when there is none
-- left, and the interrupts are enabled or disabled as in the beginning.
pub Reach-Counted :
    (cpu : IrqState) (u : Used)
    → Reach (record { lock = lock_create true; cpu = cpu; references = 1 }) u
    → Counted cpu u
unfolding lock_create
Reach-Counted cpu u start = record {
  lock = record { lock_count = 0; ref_count = 1; freed = false };
  exists = refl;
  counted = refl;
  bounded = omega arith;
  freed = refl;
  same_cpu = refl;
}
Reach-Counted cpu u (next {v = v} r s) = Step-Counted cpu v u s (Reach-Counted cpu v r)
