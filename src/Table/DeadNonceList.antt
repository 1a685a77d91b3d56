-- ===== src/Table/DeadNonceList.antt =====
-- `DeadNonceList` of daemon/table/dead-nonce-list.cpp. The container is the sequence of its entries,
-- which the hash table indexes. The hash of a name with a nonce (core/city-hash.cpp) and the products
-- of the capacity with CAPACITY_UP and CAPACITY_DOWN, of type `double`, are parameters. The timers'
-- events are the calls of `mark` and `adjust_capacity`.
pub mod Retention
pub mod Capacity
use nfd_qo_s.Base.{
  ℕ, ◌+◌, ◌-◌, ◌^◌, min, max, Bool, Option, none, some, List, [], ◌∷◌, ◌++◌, ltb, leb, ◌==◌,
  if◌then◌else◌, length, drop, replicate, all, any,
}

-- In nanoseconds.
abbrev pub min_lifetime : ℕ
min_lifetime = 10 ^ 6

abbrev pub initial_capacity : ℕ
initial_capacity = 2 ^ 7

abbrev pub min_capacity : ℕ
min_capacity = 2 ^ 3

abbrev pub max_capacity : ℕ
max_capacity = 2 ^ 24

abbrev pub mark_entry : ℕ
mark_entry = 0

abbrev pub expected_mark_count : ℕ
expected_mark_count = 5

abbrev pub evict_limit : ℕ
evict_limit = 2 ^ 6

pub record Params : Type 0 where
  pub hash : List ℕ → ℕ → ℕ
  pub up : ℕ → ℕ
  pub down : ℕ → ℕ

pub record DeadNonceList : Type 0 where
  pub queue : List ℕ
  pub capacity : ℕ
  pub actual_mark_counts : List ℕ

-- `none` is the exception for a lifetime that is too short.
unfoldable pub new_dead_nonce_list : ℕ → Option DeadNonceList
new_dead_nonce_list lifetime =
    if ltb lifetime min_lifetime
    then none
    else some (record {
      queue = replicate expected_mark_count mark_entry;
      capacity = initial_capacity;
      actual_mark_counts = [];
    })

unfoldable pub count_marks : List ℕ → ℕ
count_marks [] = 0
count_marks (x ∷ xs) = (if x == mark_entry then 1 else 0) + count_marks xs

abbrev pub size : DeadNonceList → ℕ
size l = length l.queue - count_marks l.queue

unfoldable pub has : Params → DeadNonceList → List ℕ → ℕ → Bool
has params l name nonce = any (λ x. x == params.hash name nonce) l.queue

-- The first entries are erased, `evict_limit` at most.
pub evict_entries : DeadNonceList → DeadNonceList
evict_entries l =
    if leb (length l.queue) l.capacity
    then l
    else record l { queue = drop (min (length l.queue - l.capacity) evict_limit) l.queue }

unfoldable pub add : Params → List ℕ → ℕ → DeadNonceList → DeadNonceList
unfolding evict_entries
add params name nonce l =
    evict_entries (record l { queue = l.queue ++ params.hash name nonce ∷ [] })

unfoldable pub mark : DeadNonceList → DeadNonceList
unfolding count_marks
mark l =
    let queue' = l.queue ++ mark_entry ∷ [] in
    record l { queue = queue'; actual_mark_counts = count_marks queue' ∷ l.actual_mark_counts }

-- The multiset's range of the expected count tells whether all counts are above it or below it.
abbrev pub adjusted : Params → DeadNonceList → ℕ
adjusted params l =
    if all (λ n. ltb expected_mark_count n) l.actual_mark_counts
    then max min_capacity (params.down l.capacity)
    else if all (λ n. ltb n expected_mark_count) l.actual_mark_counts
    then min max_capacity (params.up l.capacity)
    else l.capacity

unfoldable pub adjust_capacity : Params → DeadNonceList → DeadNonceList
unfolding evict_entries
adjust_capacity params l =
    evict_entries (record l { capacity = adjusted params l; actual_mark_counts = [] })
