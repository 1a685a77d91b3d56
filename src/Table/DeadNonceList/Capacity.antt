-- ===== src/Table/DeadNonceList/Capacity.antt =====
-- The capacity, and how far the queue is above it.
use nfd_qo_s.Base.{
  ℕ, ◌+◌, ◌-◌, ◌≤◌, ◌<◌, min, max, ◌≡◌, sym, ap, ◌∙◌, ◌⊎◌, inl, inr, Bool, true, List, [], ◌∷◌,
  ◌++◌, arith, ltb, leb, tests, Bool-cases, length, All, all, length-append, length-drop,
}
use nfd_qo_s.Table.DeadNonceList.{
  min_capacity, max_capacity, expected_mark_count, evict_limit, Params, DeadNonceList,
  evict_entries, add, adjusted, adjust_capacity,
}

-- The capacity is within its bounds.
abbrev pub IsBounded : DeadNonceList → Type 0
IsBounded l = (min_capacity ≤ l.capacity) × (l.capacity ≤ max_capacity)

-- What an eviction leaves of a queue.
abbrev pub left : ℕ → ℕ → ℕ
left n capacity = max (n - evict_limit) (min n capacity)

length-evict :
    (l : DeadNonceList) → length (evict_entries l).queue ≡ left (length l.queue) l.capacity
unfolding evict_entries
length-evict l =
    let gone : ℕ = min (length l.queue - l.capacity) evict_limit in
    elim (Bool-cases (leb (length l.queue) l.capacity)) [
      | inl small ↦ rw small (omega tests)
      | inr over ↦ rw over (omega (tests, length-drop gone l.queue))
    ]

kept-evict :
    (l : DeadNonceList)
    → ((evict_entries l).capacity ≡ l.capacity)
      × ((evict_entries l).actual_mark_counts ≡ l.actual_mark_counts)
unfolding evict_entries
kept-evict l = ground arith

all_iff :
    (test : ℕ → Bool) (P : ℕ → Type 0) (xs : List ℕ)
    → ((x : ℕ) → test x ≡ true → P x)
    → all test xs ≡ true
    → All P xs
all_iff test P [] f h = tt
all_iff test P (x ∷ xs) f h = elim (Bool-cases (test x)) [
  | inl good ↦ (f x good, all_iff test P xs f (ground arith))
  | inr bad ↦ absurd (ground arith)
]

-- The new capacity, with the reason for a change.
adjusted_lem :
    (params : Params) (l : DeadNonceList)
    → ((n : ℕ) → params.down n ≤ n)
    → ((n : ℕ) → n ≤ params.up n)
    → IsBounded l
    → (min_capacity ≤ adjusted params l)
      × (adjusted params l ≤ max_capacity)
      × ((l.capacity ≤ adjusted params l) ⊎ All (λ n. expected_mark_count < n) l.actual_mark_counts)
      × ((adjusted params l ≤ l.capacity) ⊎ All (λ n. n < expected_mark_count) l.actual_mark_counts)
adjusted_lem params l lower higher bounded =
    let low = lower l.capacity in
    let high = higher l.capacity in
    elim (Bool-cases (all (λ n. ltb expected_mark_count n) l.actual_mark_counts)) [
      | inl above ↦ rw above (
        omega arith,
        omega arith,
        inr (all_iff _ _ l.actual_mark_counts (λ n h. omega tests) above),
        inl (omega arith),
      )
      | inr mixed ↦ elim (Bool-cases (all (λ n. ltb n expected_mark_count) l.actual_mark_counts)) [
        | inl below ↦
            rw (mixed, below)
              (
                omega arith,
                omega arith,
                inl (omega arith),
                inr (all_iff _ _ l.actual_mark_counts (λ n h. omega tests) below),
              )
        | inr fine ↦ rw (mixed, fine) (bounded.0, bounded.1, inl (omega arith), inl (omega arith))
      ]
    ]

-- Adding a nonce keeps the capacity and the counts of marks, and leaves the queue over the capacity
-- only by what 64 evictions could not take away.
pub add_lem :
    (params : Params) (name : List ℕ) (nonce : ℕ) (l : DeadNonceList)
    → let l' = add params name nonce l in
      (l'.capacity ≡ l.capacity)
      × (l'.actual_mark_counts ≡ l.actual_mark_counts)
      × (length l'.queue ≡ left (length l.queue + 1) l.capacity)
unfolding add
add_lem params name nonce l =
    let l₁ = record l { queue = l.queue ++ params.hash name nonce ∷ [] } in
    let (c, m) = kept-evict l₁ in
    (
      c,
      m,
      length-evict l₁
          ∙ ap (λ n. left n l.capacity) (length-append l.queue (params.hash name nonce ∷ [])),
    )

-- `adjustCapacity` keeps the capacity within its bounds, lowers it only if all counts of marks are
-- above the expected one, raises it only if all are below, and starts a new period of counts.
-- CAPACITY_DOWN does not raise and CAPACITY_UP does not lower.
pub adjust_capacity_lem :
    (params : Params) (l : DeadNonceList)
    → ((n : ℕ) → params.down n ≤ n)
    → ((n : ℕ) → n ≤ params.up n)
    → IsBounded l
    → let l' = adjust_capacity params l in
      IsBounded l'
      × (l'.actual_mark_counts ≡ [])
      × ((l.capacity ≤ l'.capacity) ⊎ All (λ n. expected_mark_count < n) l.actual_mark_counts)
      × ((l'.capacity ≤ l.capacity) ⊎ All (λ n. n < expected_mark_count) l.actual_mark_counts)
      × (length l'.queue ≡ left (length l.queue) l'.capacity)
unfolding adjust_capacity
adjust_capacity_lem params l lower higher bounded =
    let l₁ = record l { capacity = adjusted params l; actual_mark_counts = [] } in
    let (c, m) = kept-evict l₁ in
    let (low, high, down, up) = adjusted_lem params l lower higher bounded in
    (rw c (low, high), m, rw c down, rw c up, length-evict l₁ ∙ ap (left (length l.queue)) (sym c))
