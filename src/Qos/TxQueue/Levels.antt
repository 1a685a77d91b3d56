-- ===== src/Qos/TxQueue/Levels.antt =====
-- The levels of a priority queue as plain lists of items, and what the operations do to them.
use nfd_qo_s.Base.{
  ℕ, zero, suc, ◌+◌, ◌^◌, ◌≤◌, ◌<◌, ◌≡◌, refl, sym, ap, ◌∙◌, inl, inr, Bool, true, ◌&&◌, none, some,
  List, [], ◌∷◌, arith, ◌==◌, if◌then◌else◌, Option-cases, length, get_elem?, set, drop, All, null,
  length-set, get_elem?-set_self, get_elem?-set_ne, lt_of_get_elem?, get_elem?_of_lt, All-set,
  All-get_elem?, drop-eq-cons, drop-length,
}
use nfd_qo_s.Qos.Queue.{QueueItem, QosQueue, is_empty, IsBounded}
use nfd_qo_s.Qos.TxQueue.{TxQueue, is_empty_from, all_empty, do_dequeue}

null-add {ℓ} :
    {A : Type ℓ} (e : Bool) (xs : List A) (n : ℕ)
    → ((e && null xs) && (n == 0)) ≡ (e && (length xs + n == 0))
null-add e [] n = ground arith
null-add e (x ∷ xs) n = ground arith

module _ {F : Type 0} where
  -- The items that wait at a level, the next one to be sent first.
  unfoldable pub contents : ℕ → TxQueue F → List QueueItem
  contents i t = elim (get_elem? t.priority_queues i) [ none ↦ [] | some q ↦ q.queue ]

  -- Each level exists, holds no more than its limit, and has a finish time that is a `uint64_t`.
  abbrev pub IsLevel : QosQueue F → Type 0
  IsLevel q = IsBounded q × (q.last_virtual_finish_time < 2 ^ 64)

  pub record IsValid (t : TxQueue F) : Type 0 where
    pub counted : t.total_queues ≡ length t.priority_queues
    pub levels : All IsLevel t.priority_queues

  -- The number of items that wait, at all levels.
  pub backlog : List (QosQueue F) → ℕ
  backlog [] = 0
  backlog (q ∷ qs) = length q.queue + backlog qs

  is_empty_from_lem :
      (n i : ℕ) (qs : List (QosQueue F)) (e : Bool)
      → i + n ≡ length qs
      → is_empty_from n i qs e ≡ some (e && (backlog (drop i qs) == 0))
  unfolding is_empty_from backlog is_empty
  is_empty_from_lem zero i qs e h = rw (drop-length qs i (omega arith)) (ground arith)
  is_empty_from_lem (suc n) i qs e h =
      let (q, at) = get_elem?_of_lt qs i (omega arith) in
      rw
        (at, drop-eq-cons qs i q at, is_empty_from_lem n (i + 1) qs (e && is_empty q) (omega arith))
        (ap some (null-add e q.queue (backlog (drop (i + 1) qs))))

  -- `IsEmpty` tells whether anything waits.
  pub all_empty_lem :
      (t : TxQueue F) → IsValid t → all_empty t ≡ some (backlog t.priority_queues == 0)
  unfolding all_empty
  all_empty_lem t v =
      rw v.counted
        (is_empty_from_lem (length t.priority_queues) 0 t.priority_queues true (omega arith))

  pub queue-le-backlog :
      (qs : List (QosQueue F)) (i : ℕ) (q : QosQueue F)
      → get_elem? qs i ≡ some q
      → length q.queue ≤ backlog qs
  unfolding backlog
  queue-le-backlog [] i q e = cc
  queue-le-backlog (p ∷ qs) zero q e = let h : p ≡ q = cc in rw h (omega arith)
  queue-le-backlog (p ∷ qs) (suc i) q e = omega (arith, queue-le-backlog qs i q e)

  pub contents-set :
      (t : TxQueue F) (i j : ℕ) (q : QosQueue F)
      → i < length t.priority_queues
      → contents j (record t { priority_queues = set t.priority_queues i q })
        ≡ (if i == j then q.queue else contents j t)
  unfolding contents
  contents-set t i j q h =
      ground (
        arith,
        get_elem?-set_self t.priority_queues i q h,
        get_elem?-set_ne t.priority_queues i j q,
      )

  pub contents-cons :
      (t : TxQueue F) (i : ℕ) (item : QueueItem) (rest : List QueueItem)
      → contents i t ≡ item ∷ rest
      → (q : QosQueue F) × (get_elem? t.priority_queues i ≡ some q) × (q.queue ≡ item ∷ rest)
  unfolding contents
  contents-cons t i item rest c = elim (Option-cases (get_elem? t.priority_queues i)) [
    | inl e ↦ absurd (ground arith)
    | inr (q, e) ↦ (q, e, ground arith)
  ]

  pub IsValid-set :
      (t : TxQueue F) (i : ℕ) (q : QosQueue F)
      → IsValid t
      → IsLevel q
      → IsValid (record t { priority_queues = set t.priority_queues i q })
  IsValid-set t i q v l = record {
    counted = v.counted ∙ sym (length-set t.priority_queues i q);
    levels = All-set IsLevel t.priority_queues i q v.levels l;
  }

  -- Where a level of the queue holds an item, `DoDequeue` returns the first one and removes it; the
  -- rest of that level, the other levels and the validity of the queue stay.
  pub do_dequeue_lem :
      (t : TxQueue F) (i : ℕ) (item : QueueItem) (rest : List QueueItem)
      → IsValid t
      → contents i t ≡ item ∷ rest
      → (t' : TxQueue F) × (do_dequeue i t ≡ some (item, t'))
        × IsValid t'
        × ((j : ℕ) → contents j t' ≡ (if i == j then rest else contents j t))
        × (t'.total_queues ≡ t.total_queues)
  unfolding do_dequeue
  do_dequeue_lem t i item rest v c =
      let (q, at, qi) = contents-cons t i item rest c in
      let q' : QosQueue F = record q { queue = rest } in
      let bound = lt_of_get_elem? t.priority_queues i q at in
      let level = All-get_elem? IsLevel t.priority_queues i q v.levels at in
      (
        record t { priority_queues = set t.priority_queues i q' },
        ground (arith, all_empty_lem t v, queue-le-backlog t.priority_queues i q at, ap length qi),
        IsValid-set t i q' v (omega (arith, level, ap length qi)),
        λ j. contents-set t i j q' bound,
        refl,
      )
