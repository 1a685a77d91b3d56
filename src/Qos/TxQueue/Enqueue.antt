-- ===== src/Qos/TxQueue/Enqueue.antt =====
-- `DoEnqueue`: which items are taken, and where they go.
use mathlib.Core.Path.{subst}
use nfd_qo_s.Base.{
  ℕ, zero, suc, ◌+◌, ◌≤◌, ◌<◌, max, ◌≡◌, refl, sym, ap, ◌∙◌, ◌≢◌, inl, inr, Bool, true, false, ◌&&◌,
  none, some, List, [], ◌∷◌, ◌++◌, arith, ltb, ◌==◌, if◌then◌else◌, tests, Bool-cases, Option-cases,
  length, get_elem?, set, length-append, get_elem?-set_self, get_elem?-set_ne, lt_of_get_elem?,
  get_elem?_of_lt, All-get_elem?,
}
use nfd_qo_s.Qos.Float.{Float, IsFloat}
use nfd_qo_s.Qos.Queue.{QueueItem, QosQueue}
use nfd_qo_s.Qos.TxQueue.{TxQueue, total_weight, update_time, do_enqueue}
use nfd_qo_s.Qos.TxQueue.Levels.{contents, IsLevel, IsValid, contents-set, IsValid-set}

-- The number of items that a level may hold.
unfoldable pub limit : {F : Type 0} → ℕ → TxQueue F → ℕ
limit i t = elim (get_elem? t.priority_queues i) [ none ↦ 0 | some q ↦ q.max_queue_size ]

-- The level has room for one more item.
unfoldable pub accepts : {F : Type 0} → ℕ → TxQueue F → Bool
unfolding limit contents
accepts level t = ltb (length (contents level t)) (limit level t)

accepts-at :
    {F : Type 0} (t : TxQueue F) (level : ℕ) (q : QosQueue F)
    → get_elem? t.priority_queues level ≡ some q
    → accepts level t ≡ ltb (length q.queue) q.max_queue_size
unfolding accepts
accepts-at t level q at = ground arith

module _ (f : Float) where
  open f use {Carrier, add}

  total_weight-total :
      (n i : ℕ) (qs : List (QosQueue Carrier)) (total : Carrier)
      → i + n ≡ length qs
      → (w : Carrier) × (total_weight f n i qs total ≡ some w)
  unfolding total_weight
  total_weight-total zero i qs total h = (total, refl)
  total_weight-total (suc n) i qs total h =
      let (q, at) = get_elem?_of_lt qs i (omega arith) in
      let (w, run) = total_weight-total n (i + 1) qs (add total q.weight) (omega arith) in
      (w, rw (at, run))

  -- The weights are all that `GetFlowRate` reads of the levels.
  total_weight-set :
      (n i level : ℕ) (qs : List (QosQueue Carrier)) (q q' : QosQueue Carrier) (total : Carrier)
      → get_elem? qs level ≡ some q
      → q'.weight ≡ q.weight
      → total_weight f n i (set qs level q') total ≡ total_weight f n i qs total
  unfolding total_weight
  total_weight-set zero i level qs q q' total at same = refl
  total_weight-set (suc n) i level qs q q' total at same =
      let later = λ (sum : Carrier). total_weight-set n (i + 1) level qs q q' sum at same in
      elim (Bool-cases (level == i)) [
        | inl here ↦
            let level_i : level ≡ i = ground (arith, here) in
            let new : get_elem? (set qs level q') i ≡ some q' =
              subst (λ k. get_elem? (set qs level q') k ≡ some q') level_i
                (get_elem?-set_self qs level q' (lt_of_get_elem? qs level q at)) in
            let old = subst (λ k. get_elem? qs k ≡ some q) level_i at in
            rw (new, old)
              (later (add total q'.weight)
                ∙ ap (λ x. total_weight f n (i + 1) qs (add total x)) same)
        | inr there ↦
            let level_i : level ≢ i = ground (arith, there) in
            rw (get_elem?-set_ne qs level i q' level_i) (elim (Option-cases (get_elem? qs i)) [
              | inl outside ↦ rw outside refl
              | inr (p, e) ↦ rw e (later (add total p.weight))
            ])
      ]

  -- The virtual finish time of a packet at a level, where the weights of all levels add up to `w`.
  abbrev pub finish_after : ℕ → ℕ → Carrier → QosQueue Carrier → ℕ
  finish_after now size w q =
      let start : ℕ = max now q.last_virtual_finish_time in
      f.to_u64
        (add (f.of_nat start) (f.mul (f.of_nat size) (f.sub (f.of_nat 1) (f.div q.weight w))))

  -- The level of the call: as it was, or with the item behind the others and its finish time.
  abbrev pub LevelAfter : ℕ → QueueItem → ℕ → TxQueue Carrier → TxQueue Carrier → Bool → Type 0
  LevelAfter now item level t t' taken =
      (q : QosQueue Carrier) × (w : Carrier) × (get_elem? t.priority_queues level ≡ some q)
      × (total_weight f t.total_queues 0 t.priority_queues (f.of_nat 0) ≡ some w)
      × (get_elem? t'.priority_queues level
          ≡ some (
              if taken
              then record q {
                queue = q.queue ++ item ∷ [];
                last_virtual_finish_time = finish_after now (length item.wire_encode) w q;
              }
              else q))

  abbrev pub Enqueued : ℕ → QueueItem → ℕ → TxQueue Carrier → Bool → Type 0
  Enqueued now item level t taken =
      (t' : TxQueue Carrier) × (do_enqueue f now item level t ≡ some (t', taken))
      × IsValid t'
      × ((j : ℕ)
          → contents j t'
            ≡ (if taken && (level == j) then contents j t ++ item ∷ [] else contents j t))
      × (t'.total_queues ≡ t.total_queues)
      × ((j : ℕ) → level ≢ j → get_elem? t'.priority_queues j ≡ get_elem? t.priority_queues j)
      × LevelAfter now item level t t' taken

  module _ (now : ℕ) (item : QueueItem) (level : ℕ) (t : TxQueue Carrier) (v : IsValid t) where
    module _ (q : QosQueue Carrier) (at : get_elem? t.priority_queues level ≡ some q) where
      enqueue-refused :
          ltb (length q.queue) q.max_queue_size ≡ false → Enqueued now item level t false
      unfolding do_enqueue contents
      enqueue-refused full = (
        record t { priority_queues = set t.priority_queues level q },
        rw (at, full),
        IsValid-set t level q v (All-get_elem? IsLevel t.priority_queues level q v.levels at),
        λ j. contents-set t level j q (lt_of_get_elem? t.priority_queues level q at) ∙ ground arith,
        refl,
        λ j other. get_elem?-set_ne t.priority_queues level j q other,
        let (w, sum) =
              total_weight-total t.total_queues 0 t.priority_queues (f.of_nat 0)
                (omega (arith, v.counted)) in
            (
              q,
              w,
              at,
              sum,
              get_elem?-set_self t.priority_queues level q
                  (lt_of_get_elem? t.priority_queues level q at),
            ),
      )

      enqueue-taken :
          IsFloat f → ltb (length q.queue) q.max_queue_size ≡ true → Enqueued now item level t true
      unfolding do_enqueue contents update_time
      enqueue-taken law room =
          let q₁ : QosQueue Carrier = record q { queue = q.queue ++ item ∷ [] } in
          let level₀ = All-get_elem? IsLevel t.priority_queues level q v.levels at in
          let bound = lt_of_get_elem? t.priority_queues level q at in
          let fits : length (q.queue ++ item ∷ []) ≤ q.max_queue_size =
            omega (tests, length-append q.queue (item ∷ [])) in
          let (w, sum) =
            total_weight-total t.total_queues 0 t.priority_queues (f.of_nat 0)
              (omega (arith, v.counted)) in
          let sum₁ =
            total_weight-set t.total_queues 0 level t.priority_queues q q₁ (f.of_nat 0) at refl
            ∙ sum in
          let finish = finish_after now (length item.wire_encode) w q in
          let q₂ : QosQueue Carrier = record q₁ { last_virtual_finish_time = finish } in
          (
            record t { priority_queues = set t.priority_queues level q₂ },
            rw (at, room, sum₁) refl,
            IsValid-set t level q₂ v (fits, law.to_u64_bound _),
            λ j. contents-set t level j q₂ bound ∙ ground arith,
            refl,
            λ j other. get_elem?-set_ne t.priority_queues level j q₂ other,
            (q, w, at, sum, get_elem?-set_self t.priority_queues level q₂ bound),
          )

  -- An item for a level that exists is taken exactly when the level is not full. It then goes behind
  -- the items of that level, which gets the finish time of the item; the rest of the level and each
  -- other level stay as they are, and the queue stays valid. A refused item changes no level.
  pub do_enqueue_lem :
      (now : ℕ) (item : QueueItem) (level : ℕ) (t : TxQueue Carrier)
      → IsFloat f
      → IsValid t
      → level < t.total_queues
      → Enqueued now item level t (accepts level t)
  do_enqueue_lem now item level t law v h =
      let (q, at) = get_elem?_of_lt t.priority_queues level (omega (arith, v.counted)) in
      let same = accepts-at t level q at in
      elim (Bool-cases (accepts level t)) [
        | inl e ↦ rw e (enqueue-taken now item level t v q at law (sym same ∙ e))
        | inr e ↦ rw e (enqueue-refused now item level t v q at (sym same ∙ e))
      ]
