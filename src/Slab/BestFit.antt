-- ===== src/Slab/BestFit.antt =====
-- The cache from which kmalloc allocates.
use osext.Common.{
  ℕ, ◌≤◌, ◌<◌, true, false, ltb, ◌==◌, ◌≡◌, refl, arith, ap, ◌∙◌, ◌⊎◌, inl, inr, Bool-cases, sym,
  List, [], ◌∷◌, Option, none, some, ==_iff,
}
use mathlib.Core.Path.{subst}
use mathlib.Core.Option.{some-injective}
use osext.Slab.State.{Cache, no_malloc}
use osext.Slab.Kmalloc.{better, best_fit, kmalloc_cache}

-- `kmalloc` may allocate an object of `size` bytes from the cache.
abbrev pub Suits : ℕ → Cache → Type 0
Suits size c = (no_malloc c.flags ≡ false) × (size ≤ c.obj_size)

abbrev pub Among : Cache → List Cache → Type 0
Among c [] = ⊥
Among c (d ∷ ds) = (c ≡ d) ⊎ Among c ds

-- No suitable cache of the list has smaller objects.
abbrev pub NoSmaller : ℕ → ℕ → List Cache → Type 0
NoSmaller size least [] = Unit
NoSmaller size least (d ∷ ds) = (Suits size d → least ≤ d.obj_size) × NoSmaller size least ds

abbrev pub NoneSuits : ℕ → List Cache → Type 0
NoneSuits size [] = Unit
NoneSuits size (d ∷ ds) = (¬ Suits size d) × NoneSuits size ds

exact-NoSmaller : (size : ℕ) (ds : List Cache) → NoSmaller size size ds
exact-NoSmaller size [] = tt
exact-NoSmaller size (d ∷ ds) = ((λ s. s.1), exact-NoSmaller size ds)

-- What the search returns, from the best cache so far on.
abbrev Best : ℕ → Option Cache → List Cache → Option Cache → Type 0
Best size best cs none = (best ≡ none) × NoneSuits size cs
Best size best cs (some c) =
    ((best ≡ some c) ⊎ (Among c cs × Suits size c))
    × NoSmaller size c.obj_size cs
    × ((b : Cache) → best ≡ some b → size ≤ b.obj_size → c.obj_size ≤ b.obj_size)

better_cases :
    (best : Option Cache) (c : Cache)
    → ((better best c ≡ some c) × ((b : Cache) → best ≡ some b → c.obj_size ≤ b.obj_size))
      ⊎ ((b : Cache) × (best ≡ some b) × (better best c ≡ some b) × (b.obj_size ≤ c.obj_size))
unfolding better
better_cases none c = inl (refl, λ b e. absurd (let x : ⊥ = cc in x))
better_cases (some b) c = elim (Bool-cases (ltb c.obj_size b.obj_size)) [
  | inl e ↦ inl (rw e, λ d f. ground arith)
  | inr e ↦ inr (b, refl, rw e, ground arith)
]

-- One cache more in front.
Best-skip :
    (size : ℕ) (best : Option Cache) (d : Cache) (ds : List Cache) (r : Option Cache)
    → ¬ Suits size d
    → Best size best ds r
    → Best size best (d ∷ ds) r
Best-skip size best d ds none ns h = (h.0, (ns, h.1))
Best-skip size best d ds (some c) ns h =
    (elim h.0 [ inl e ↦ inl e | inr a ↦ inr (inr a.0, a.1) ], ((λ s. absurd (ns s)), h.1), h.2)

better-ne-none : (best : Option Cache) (d : Cache) → ¬ (better best d ≡ none)
better-ne-none best d e = elim (better_cases best d) [
  | inl new ↦ (let f = new.0 in cc)
  | inr old ↦ (let f = old.2 in cc)
]

Best-replace :
    (size : ℕ) (best : Option Cache) (d : Cache) (ds : List Cache) (r : Option Cache)
    → ((b : Cache) → best ≡ some b → size ≤ b.obj_size)
    → Suits size d
    → Best size (better best d) ds r
    → Best size best (d ∷ ds) r
Best-replace size best d ds none k s h = absurd (better-ne-none best d h.0)
Best-replace size best d ds (some c) k s h = elim (better_cases best d) [
  | inl new ↦ (
    elim h.0 [
      | inl e ↦
          (let eq = some-injective _ _ (sym new.0 ∙ e) in
            inr (inl (sym eq), subst (λ x. Suits size x) eq s))
      | inr a ↦ inr (inr a.0, a.1)
    ],
    ((λ _. h.2 d new.0 s.1), h.1),
    (λ b e q. omega (arith, h.2 d new.0 s.1, new.1 b e)),
  )
  | inr old ↦ (
    elim h.0 [ inl e ↦ inl (old.1 ∙ sym old.2 ∙ e) | inr a ↦ inr (inr a.0, a.1) ],
    ((λ _. omega (arith, h.2 old.0 old.2 (k old.0 old.1), old.3)), h.1),
    (λ b e q. let f = some-injective _ _ (sym e ∙ old.1) in h.2 b (old.2 ∙ ap some (sym f)) q),
  )
]

Best-exact :
    (size : ℕ) (best : Option Cache) (d : Cache) (ds : List Cache)
    → Suits size d
    → d.obj_size ≡ size
    → Best size best (d ∷ ds) (some d)
Best-exact size best d ds s e = (
  inr (inl refl, s),
  ((λ _. omega arith), subst (λ x. NoSmaller size x ds) (sym e) (exact-NoSmaller size ds)),
  (λ b f q. omega (arith, e)),
)

ltb_lt : (a b : ℕ) → ltb a b ≡ true → a ≤ b
ltb_lt a b e = ground arith

ltb_ge : (a b : ℕ) → (b == a) ≡ false → ltb a b ≡ false → ¬ (a ≤ b)
ltb_ge a b e f h = ground arith

better-le :
    (size : ℕ) (best : Option Cache) (d : Cache)
    → ((b : Cache) → best ≡ some b → size ≤ b.obj_size)
    → size ≤ d.obj_size
    → (b : Cache) → better best d ≡ some b
    → size ≤ b.obj_size
better-le size best d k h b e = elim (better_cases best d) [
  | inl new ↦ subst (λ x. size ≤ x.obj_size) (some-injective _ _ (sym new.0 ∙ e)) h
  | inr old ↦ k b (old.1 ∙ sym old.2 ∙ e)
]

best_fit-Best :
    (size : ℕ) (best : Option Cache) (cs : List Cache)
    → ((b : Cache) → best ≡ some b → size ≤ b.obj_size)
    → Best size best cs (best_fit size best cs)
unfolding best_fit
best_fit-Best size none [] k = (refl, tt)
best_fit-Best size (some c) [] k = (inl refl, tt, λ b e q. ground arith)
best_fit-Best size best (d ∷ ds) k = elim (Bool-cases (no_malloc d.flags)) [
  | inl e ↦ rw e (
      Best-skip size best d ds (best_fit size best ds) (λ s. let f = s.0 in cc)
        (best_fit-Best size best ds k))
  | inr e ↦ elim (Bool-cases (d.obj_size == size)) [
    | inl f ↦
        (let g = (==_iff d.obj_size size).0 f in
          rw (e, f) (Best-exact size best d ds (e, omega (arith, g)) g))
    | inr f ↦ elim (Bool-cases (ltb size d.obj_size)) [
      | inl g ↦
          rw (e, f, g)
            (let le = ltb_lt size d.obj_size g in
              Best-replace size best d ds (best_fit size (better best d) ds) k (e, le)
                (best_fit-Best size (better best d) ds (better-le size best d k le)))
      | inr g ↦
          rw (e, f, g)
            (Best-skip size best d ds (best_fit size best ds) (λ s. ltb_ge size d.obj_size f g s.1)
              (best_fit-Best size best ds k))
    ]
  ]
]

-- What is said of the cache that kmalloc chooses.
abbrev pub KmallocCache : ℕ → List Cache → Option Cache → Type 0
KmallocCache size cs none = (1024 < size) ⊎ NoneSuits size cs
KmallocCache size cs (some c) = Among c cs × Suits size c × NoSmaller size c.obj_size cs

Best-KmallocCache :
    (size : ℕ) (cs : List Cache) (r : Option Cache) → Best size none cs r → KmallocCache size cs r
Best-KmallocCache size cs none h = inr h.1
Best-KmallocCache size cs (some c) h =
    let a : Among c cs × Suits size c = elim h.0 [
      | inl e ↦ absurd (let x : ⊥ = cc in x)
      | inr a ↦ a
    ] in
    (a.0, a.1, h.1)

-- kmalloc gives up only if more than 1024 bytes are asked for or no cache is suitable, and the cache
-- it allocates from otherwise is one of the caches, is suitable, and no suitable cache has smaller
-- objects.
pub kmalloc_cache-Best :
    (size : ℕ) (caches : List Cache) → KmallocCache size caches (kmalloc_cache size caches)
unfolding kmalloc_cache
kmalloc_cache-Best size caches = elim (Bool-cases (ltb 1024 size)) [
  | inl e ↦ rw e (inl (ground arith))
  | inr e ↦ rw e (
      Best-KmallocCache size caches (best_fit size none caches)
        (best_fit-Best size none caches (λ b f. absurd (let x : ⊥ = cc in x))))
]
