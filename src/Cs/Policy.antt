-- ===== src/Cs/Policy.antt =====
-- The interface `cs::Policy` of daemon/table/cs-policy.cpp, as the store uses it, with the laws that its
-- implementations meet. `none` is a failed assertion.
use nfd_qo_s.Base.{ℕ, ◌+◌, ◌≤◌, ◌≡◌, Bool, Option, some, List, ◌==◌, if◌then◌else◌}
use nfd_qo_s.Base.Occurs.{occurs}

-- What a policy reads of the entry that an iterator points to.
pub record Seen : Type 0 where
  pub handle : ℕ
  pub unsolicited : Bool
  pub stale : Bool

pub record Policy : Type 1 where
  pub State : Type 0
  pub start : State
  -- the entries that the policy keeps, in its own order
  pub handles : State → List ℕ
  -- `doAfterInsert` up to its call of `evictEntries`
  pub attach : Seen → State → Option State
  -- `doAfterRefresh`
  pub refresh : Seen → State → Option State
  -- `doBeforeErase`
  pub detach : ℕ → State → Option State
  -- `doBeforeUse`
  pub use_entry : ℕ → State → Option State
  -- one round of the loop of `evictEntries`: the entry that the signal `beforeEvict` carries
  pub evict_one : State → Option (ℕ × State)

-- Each operation succeeds on an entry that is new to the policy, or known to it, and changes the entries
-- kept by no other than its own.
pub record IsPolicy (p : Policy) : Type 1 where
  -- what holds of the policy's state between two operations
  pub Keeps : p.State → Type 0
  pub start_keeps : Keeps p.start
  pub start_empty : (i : ℕ) → occurs i (p.handles p.start) ≡ 0
  pub attach_lem :
      (e : Seen) (s : p.State)
      → Keeps s
      → occurs e.handle (p.handles s) ≡ 0
      → (s' : p.State) × (p.attach e s ≡ some s')
        × Keeps s'
        × ((i : ℕ)
            → occurs i (p.handles s') ≡ (if e.handle == i then 1 else 0) + occurs i (p.handles s))
  pub refresh_lem :
      (e : Seen) (s : p.State)
      → Keeps s
      → occurs e.handle (p.handles s) ≡ 1
      → (s' : p.State) × (p.refresh e s ≡ some s')
        × Keeps s'
        × ((i : ℕ) → occurs i (p.handles s') ≡ occurs i (p.handles s))
  pub detach_lem :
      (h : ℕ) (s : p.State)
      → Keeps s
      → occurs h (p.handles s) ≡ 1
      → (s' : p.State) × (p.detach h s ≡ some s')
        × Keeps s'
        × ((i : ℕ) → occurs i (p.handles s') ≡ (if h == i then 0 else occurs i (p.handles s)))
  pub use_lem :
      (h : ℕ) (s : p.State)
      → Keeps s
      → occurs h (p.handles s) ≡ 1
      → (s' : p.State) × (p.use_entry h s ≡ some s')
        × Keeps s'
        × ((i : ℕ) → occurs i (p.handles s') ≡ occurs i (p.handles s))
  pub evict_lem :
      (h : ℕ) (s : p.State)
      → Keeps s
      → ((i : ℕ) → occurs i (p.handles s) ≤ 1)
      → occurs h (p.handles s) ≡ 1
      → (v : ℕ) × (s' : p.State) × (p.evict_one s ≡ some (v, s'))
        × Keeps s'
        × (occurs v (p.handles s) ≡ 1)
        × ((i : ℕ) → occurs i (p.handles s') ≡ (if v == i then 0 else occurs i (p.handles s)))
