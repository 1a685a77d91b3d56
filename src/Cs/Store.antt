-- ===== src/Cs/Store.antt =====
-- `Cs` of daemon/table/cs.cpp over a policy. The table, a `std::set`, is the list of its entries in
-- order. An eviction's signal `beforeEvict` erases the entry from the table, so the loop of
-- `evictEntries` is over the store; its fuel is the size of the table, since each round erases an
-- entry. The time is an argument; `none` is a failed assertion.
pub mod Invariant
pub mod Changes
use Prim.Native.Nat.{Ordering}
use Prim.Native.Nat.Ordering.{lt, eq, gt}
use nfd_qo_s.Base.{
  ℕ, zero, suc, ◌+◌, ◌-◌, Bool, true, false, not, ◌&&◌, ◌||◌, Option, none, some, List, [], ◌∷◌,
  leb, ◌==◌, if◌then◌else◌, ◌>>=◌, length, take, null,
}
use nfd_qo_s.Cs.Policy.{Seen, Policy}
use nfd_qo_s.Cs.Entry.{
  Data, Entry, is_stale, update_stale_time, unset_unsolicited, compare_data_with_data, Query,
  prefix_query, full_query, compare_query_with_data,
}

pub record Cs (p : Policy) : Type 0 where
  pub table : List Entry
  pub policy : p.State
  pub limit : ℕ
  pub should_admit : Bool
  pub should_serve : Bool
  -- the number of entries made so far
  pub next : ℕ

abbrev pub Emplace : Type 0
Emplace = List Entry × Entry × Bool

-- Where the new entry `e` goes that compares so with the entry `x` before `xs`; `rest` is its place
-- in `xs`.
abbrev pub place : Ordering → Entry → Entry → List Entry → Emplace → Emplace
place lt e x xs rest = (e ∷ x ∷ xs, e, true)
place eq e x xs rest = (x ∷ xs, x, false)
place gt e x xs (xs', found, is_new) = (x ∷ xs', found, is_new)

-- `Table::emplace`: the table, the entry of the packet's full name, and whether it is new.
unfoldable pub emplace : Entry → List Entry → Emplace
emplace e [] = (e ∷ [], e, true)
emplace e (x ∷ xs) = place (compare_data_with_data e.packet x.packet) e x xs (emplace e xs)

-- The entry that an iterator points to is changed.
unfoldable pub put_entry : Entry → List Entry → List Entry
put_entry e [] = []
put_entry e (x ∷ xs) =
    let rest = put_entry e xs in if x.handle == e.handle then e ∷ xs else x ∷ rest

-- `Table::erase`
unfoldable pub erase_entry : ℕ → List Entry → List Entry
erase_entry h [] = []
erase_entry h (x ∷ xs) = let rest = erase_entry h xs in if x.handle == h then xs else x ∷ rest

abbrev pub seen : ℕ → Entry → Seen
seen now e = record { handle = e.handle; unsolicited = e.is_unsolicited; stale = is_stale now e }

-- What the store uses of names: whether a component is an implicit digest, and `getSuccessor`.
pub record Names : Type 0 where
  pub is_digest : ℕ → Bool
  pub successor : List ℕ → List ℕ

-- `EntryImpl(const Name&)`: the query with the name's last component apart if it is a digest.
unfoldable pub query_of : Names → List ℕ → Query
query_of names [] = prefix_query []
query_of names (c ∷ []) = if names.is_digest c then full_query [] c else prefix_query (c ∷ [])
query_of names (c ∷ d ∷ ds) = elim (query_of names (d ∷ ds)) [
  | prefix_query name ↦ prefix_query (c ∷ name)
  | full_query name digest ↦ full_query (c ∷ name) digest
]

-- The entries from the first one not before the query.
unfoldable pub from_bound : Query → List Entry → List Entry
from_bound q [] = []
from_bound q (x ∷ xs) =
    let rest = from_bound q xs in
    elim (compare_query_with_data q x.packet) [ gt ↦ rest | _ ↦ x ∷ xs ]

-- `[first, last)`: the entries between the bounds of the prefix and of its successor.
abbrev pub range_of : Names → List ℕ → List Entry → List Entry
range_of names prefix table =
    let first = from_bound (query_of names prefix) table in
    let last =
      if null prefix then [] else from_bound (query_of names (names.successor prefix)) table in
    take (length first - length last) first

module _ (p : Policy) where
  -- `makeDefaultPolicy` and the constructor, for the policy
  abbrev pub new_cs : ℕ → Cs p
  new_cs limit = record {
    table = [];
    policy = p.start;
    limit = limit;
    should_admit = true;
    should_serve = true;
    next = 0;
  }

  unfoldable pub evict_entries : ℕ → Cs p → Option (Cs p)
  evict_entries zero cs = if leb (length cs.table) cs.limit then some cs else none
  evict_entries (suc fuel) cs = if leb (length cs.table) cs.limit then some cs else (do
    (h, policy) ← p.evict_one cs.policy
    evict_entries fuel (record cs { table = erase_entry h cs.table; policy = policy }))

  abbrev pub evict_all : Cs p → Option (Cs p)
  evict_all cs = evict_entries (length cs.table) cs

  -- `Policy::setLimit`
  unfoldable pub set_limit : ℕ → Cs p → Option (Cs p)
  set_limit n cs = evict_all (record cs { limit = n })

  abbrev pub refreshed : ℕ → Bool → Entry → Entry
  refreshed now unsolicited e =
      let e' = update_stale_time now e in
      if e'.is_unsolicited && not unsolicited then unset_unsolicited now e' else e'

  -- After `emplace`.
  unfoldable pub admit : ℕ → Bool → List Entry × Entry × Bool → Cs p → Option (Cs p)
  admit now unsolicited (table, e, is_new) cs =
      if not is_new
      then (let e' = refreshed now unsolicited e in
          do
            policy ← p.refresh (seen now e') cs.policy
            some (record cs { table = put_entry e' table; policy = policy }))
      else (let e' = update_stale_time now e in
          do
            policy ← p.attach (seen now e') cs.policy
            evict_all
                (record cs { table = put_entry e' table; policy = policy; next = cs.next + 1 }))

  abbrev pub made : ℕ → Data → Bool → Cs p → Entry
  made now packet unsolicited cs =
      update_stale_time now
        (record { handle = cs.next; packet = packet; is_unsolicited = unsolicited; stale_time = 0 })

  unfoldable pub insert_data : ℕ → Data → Bool → Cs p → Option (Cs p)
  unfolding admit
  insert_data now packet unsolicited cs =
      if not cs.should_admit || cs.limit == 0
      then some cs
      else if packet.no_cache
      then some cs
      else admit now unsolicited (emplace (made now packet unsolicited cs) cs.table) cs

  -- The loop of `erase` over the range, and the number of entries erased.
  pub erase_range : ℕ → List Entry → Cs p → Option (Cs p × ℕ)
  erase_range limit [] cs = some (cs, 0)
  erase_range zero (x ∷ range) cs = some (cs, 0)
  erase_range (suc limit) (x ∷ range) cs = do
    policy ← p.detach x.handle cs.policy
    (cs', n) ←
        erase_range limit range
          (record cs { table = erase_entry x.handle cs.table; policy = policy })
    some (cs', n + 1)

  unfoldable pub erase_data : Names → List ℕ → ℕ → Cs p → Option (Cs p × ℕ)
  unfolding erase_range from_bound
  erase_data names prefix limit cs = erase_range limit (range_of names prefix cs.table) cs

  abbrev pub enable_admit : Bool → Cs p → Cs p
  enable_admit should_admit cs = record cs { should_admit = should_admit }

  abbrev pub enable_serve : Bool → Cs p → Cs p
  enable_serve should_serve cs = record cs { should_serve = should_serve }

-- `setPolicy`: the new policy knows none of the entries.
abbrev pub set_policy : (p q : Policy) → Cs p → Option (Cs q)
set_policy p q cs = set_limit q cs.limit (record {
  table = cs.table;
  policy = q.start;
  limit = cs.limit;
  should_admit = cs.should_admit;
  should_serve = cs.should_serve;
  next = cs.next;
})
