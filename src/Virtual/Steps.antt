-- ===== src/Virtual/Steps.antt =====
-- The calls that change the address spaces, as steps.
use osext.Common.{ℕ, ◌≡◌, ◌∙◌, some, List, []}
use osext.Physical.{Table}
use osext.Virtual.Space.{Machine}
use osext.Virtual.Map.{Requests, add_virtual_page, add_kernel_page, migrate_kernel_cpt}
use osext.Virtual.Create.{SpaceRequests, create_address_space, destroy_address_space}
use osext.Virtual.Shares.{SharesBut, NotKernel}
use osext.Virtual.Growth.{Growth, Quiet-SharesBut}
use osext.Virtual.Quiet.{Growth-Quiet}
use osext.Virtual.Kept.{
  add_virtual_page-SharesBut, add_kernel_page-SharesBut, create_address_space-SharesBut,
  destroy_address_space-SharesBut, no_spaces, migrate-address_spaces,
}

-- A call, with what its requests do. A page of a section that the kernel does not use, nor comes to
-- use during the call, may be added to an address space.
pub data Step (out : List ℕ) : Machine → Machine → Type 0 where
  kernel_page :
      {m : Machine} (c b page adr : ℕ) (q : Requests) (m' : Machine)
      → ((n n' : Machine) → q.list_entry n ≡ some n' → Growth out n n')
      → ((n n' : Machine) (cpt : ℕ) → q.table n ≡ some (cpt, n') → Growth out n n')
      → add_kernel_page c b q page adr m ≡ some m'
      → Step out m m'
  user_page :
      {m : Machine} (s page adr : ℕ) (q : Requests) (m' : Machine)
      → ((n n' : Machine) → q.list_entry n ≡ some n' → Growth out n n')
      → ((n n' : Machine) (cpt : ℕ) → q.table n ≡ some (cpt, n') → Growth out n n')
      → NotKernel m' adr
      → add_virtual_page q s page adr m ≡ some m'
      → Step out m m'
  created :
      {m : Machine} (q : SpaceRequests) (s : ℕ) (m' : Machine)
      → ((n n' : Machine) (t : ℕ) → q.space n ≡ some (t, n') → Growth out n n')
      → ((n n' : Machine) → q.list_entry n ≡ some n' → Growth out n n')
      → create_address_space q m ≡ some (s, m')
      → Step out m m'
  destroyed :
      {m : Machine} (s : ℕ) (t t' : Table) (m' : Machine)
      → destroy_address_space s m t ≡ some (m', t')
      → Step out m m'
  objects : {m m' : Machine} → Growth out m m' → Step out m m'
  migrated_early :
      {m : Machine} (section migrate_cpt pages cpt : ℕ)
      → m.address_spaces ≡ []
      → Step out m (migrate_kernel_cpt section migrate_cpt pages cpt m)

pub data Reach (out : List ℕ) (m : Machine) : Machine → Type 0 where
  start : Reach out m m
  next : {m' m'' : Machine} → Reach out m m' → Step out m' m'' → Reach out m m''

Step-SharesBut :
    {out : List ℕ} {m m' : Machine} → Step out m m' → SharesBut out m → SharesBut out m'
Step-SharesBut {out} {m} (kernel_page c b page adr q m' first second e) h =
    add_kernel_page-SharesBut out c b q page adr m m' first second e h
Step-SharesBut {out} {m} (user_page s page adr q m' first second free e) h =
    add_virtual_page-SharesBut out q s page adr m m' first second free e h
Step-SharesBut {out} {m} (created q s m' first second e) h =
    create_address_space-SharesBut out q s m m' first second e h
Step-SharesBut {out} {m} (destroyed s t t' m' e) h =
    destroy_address_space-SharesBut out s m m' t t' e h
Step-SharesBut {out} {m} {m'} (objects g) h = Quiet-SharesBut out m m' (Growth-Quiet g) h
Step-SharesBut {out} {m} (migrated_early section migrate_cpt pages cpt e) h =
    no_spaces out (migrate_kernel_cpt section migrate_cpt pages cpt m)
      (migrate-address_spaces section migrate_cpt pages cpt m ∙ e)

-- After any sequence of these calls from a machine without address spaces, every address space that
-- exists has the kernel's descriptor for every section of the kernel, but for the sections whose
-- indices are in `out`: addVirtualKernelPage and addVirtualKernelPage_noncached, addVirtualPage in
-- a section that the kernel does not use, createAddressSpace, destroyAddressSpace, requests for
-- objects, and migrateKernelCPT while there is no address space. The caches of all requests may
-- grow; while they do, addUnlistedKernelPage makes new tables, migrateKernelCPT is called and
-- addVirtualKernelPage adds new sections only for indices in `out`, so if `out` is empty, growth
-- needs no new section.
pub Reach-SharesBut :
    (out : List ℕ) (m m' : Machine) → m.address_spaces ≡ [] → Reach out m m' → SharesBut out m'
Reach-SharesBut out m m' e start = no_spaces out m e
Reach-SharesBut out m m' e (next {m' = n} r st) = Step-SharesBut st (Reach-SharesBut out m n e r)
