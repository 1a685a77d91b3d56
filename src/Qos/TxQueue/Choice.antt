-- ===== src/Qos/TxQueue/Choice.antt =====
-- `SelectQueueToSend` finds the level with the earliest virtual finish time among those that hold
-- a packet and have a token.
use nfd_qo_s.Base.{
  ℕ, zero, suc, ◌+◌, ◌^◌, ◌≤◌, ◌<◌, ◌≡◌, refl, inl, inr, Bool, true, false, not, ◌&&◌, Option, none,
  some, List, arith, if◌then◌else◌, Bool-cases, Option-cases, length, get_elem?, null,
  get_elem?_of_lt, All-get_elem?,
}
use nfd_qo_s.Base.Int.{ℤ, pos, le_ℤ}
use nfd_qo_s.Qos.Float.{Float, IsFloat}
use nfd_qo_s.Qos.TxQueue.{TxQueue, consider, select_from, select_queue_to_send}
use nfd_qo_s.Qos.TxQueue.Levels.{contents, IsLevel, IsValid}
use nfd_qo_s.Qos.Queue.{QosQueue}

-- The level holds a packet and has a token.
unfoldable pub ready : {F : Type 0} → TxQueue F → List ℤ → ℕ → Bool
ready t tokens i =
    not (null (contents i t))
    && (elim (get_elem? tokens i) [ none ↦ false | some count ↦ le_ℤ (pos 1) count ])

unfoldable pub finish_time : {F : Type 0} → TxQueue F → ℕ → ℕ
finish_time t i = elim (get_elem? t.priority_queues i) [
  | none ↦ 0
  | some q ↦ q.last_virtual_finish_time
]

module _ (f : Float) where
  open f use {Carrier, of_nat, lt, max_value}

  -- `choice` is the first of the ready levels below `i` that finish earliest, if one is ready.
  abbrev pub IsEarliest : (ℕ → Bool) → (ℕ → ℕ) → ℕ → Option ℕ → Type 0
  IsEarliest is_ready time i none = (j : ℕ) → j < i → is_ready j ≡ false
  IsEarliest is_ready time i (some k) =
      (k < i)
      × (is_ready k ≡ true)
      × ((j : ℕ)
          → j < i
          → is_ready j ≡ true
          → (lt (of_nat (time j)) (of_nat (time k)) ≡ false)
            × (j < k → lt (of_nat (time k)) (of_nat (time j)) ≡ true))

  module _ (law : IsFloat f) (is_ready : ℕ → Bool) (time : ℕ → ℕ) where
    pick : ℕ → Carrier × Option ℕ → Carrier × Option ℕ
    pick i (least, chosen) =
        if is_ready i && lt (of_nat (time i)) least
        then (of_nat (time i), some i)
        else (least, chosen)

    abbrev Holds : ℕ → Carrier × Option ℕ → Type 0
    Holds i (least, none) = (least ≡ max_value) × IsEarliest is_ready time i none
    Holds i (least, some k) = (least ≡ of_nat (time k)) × IsEarliest is_ready time i (some k)

    first_ready :
        (i : ℕ)
        → is_ready i ≡ true
        → IsEarliest is_ready time i none
        → IsEarliest is_ready time (i + 1) (some i)
    first_ready i r e = (omega arith, r, λ j b rj. ground (arith, e j, law.lt_irrefl (time i)))

    earlier_ready :
        (i k : ℕ)
        → is_ready i ≡ true
        → lt (of_nat (time i)) (of_nat (time k)) ≡ true
        → IsEarliest is_ready time i (some k)
        → IsEarliest is_ready time (i + 1) (some i)
    earlier_ready i k r l e = (
      omega arith,
      r,
      λ j b rj. ground (
        arith,
        e.2 j,
        law.lt_irrefl (time i),
        law.lt_cotrans (time j) (time k) (time i),
        law.lt_of_lt_not (time j) (time k) (time i),
      ),
    )

    keep_none :
        (i : ℕ)
        → is_ready i ≡ false
        → IsEarliest is_ready time i none
        → IsEarliest is_ready time (i + 1) none
    keep_none i r e = λ j b. ground (arith, e j)

    keep_some :
        (i k : ℕ)
        → (is_ready i && lt (of_nat (time i)) (of_nat (time k))) ≡ false
        → IsEarliest is_ready time i (some k)
        → IsEarliest is_ready time (i + 1) (some k)
    keep_some i k r e = (omega arith, e.1, λ j b rj. ground (arith, e.2 j))

    Holds-pick :
        (i : ℕ) (best : Carrier × Option ℕ)
        → time i < 2 ^ 64
        → Holds i best
        → Holds (i + 1) (pick i best)
    unfolding pick
    Holds-pick i (least, none) b h = elim (Bool-cases (is_ready i && lt (of_nat (time i)) least)) [
      | inl e ↦ rw e (refl, first_ready i (ground arith) h.1)
      | inr e ↦ rw e (h.0, keep_none i (ground (arith, law.below_max (time i) b)) h.1)
    ]
    Holds-pick i (least, some k) b h =
        elim (Bool-cases (is_ready i && lt (of_nat (time i)) least)) [
          | inl e ↦ rw e (refl, earlier_ready i k (ground arith) (ground arith) h.1)
          | inr e ↦ rw e (h.0, keep_some i k (ground arith) h.1)
        ]

    scan : ℕ → ℕ → Carrier × Option ℕ → Carrier × Option ℕ
    scan zero i best = best
    scan (suc n) i best = scan n (i + 1) (pick i best)

    Holds-scan :
        (n i m : ℕ) (best : Carrier × Option ℕ)
        → ((j : ℕ) → time j < 2 ^ 64)
        → i + n ≡ m
        → Holds i best
        → Holds m (scan n i best)
    unfolding scan
    Holds-scan zero i m best b e h = let e' : i ≡ m = omega arith in rw (← e') h
    Holds-scan (suc n) i m best b e h =
        Holds-scan n (i + 1) m (pick i best) b (omega arith) (Holds-pick i best (b i) h)

    IsEarliest-of_Holds :
        (m : ℕ) (best : Carrier × Option ℕ) → Holds m best → IsEarliest is_ready time m best.1
    IsEarliest-of_Holds m (least, none) h = h.1
    IsEarliest-of_Holds m (least, some k) h = h.1

  module _ (law : IsFloat f) (t : TxQueue Carrier) (v : IsValid t) (tokens : List ℤ) where
    finish_time_bound : (j : ℕ) → finish_time t j < 2 ^ 64
    unfolding finish_time
    finish_time_bound j = elim (Option-cases (get_elem? t.priority_queues j)) [
      | inl e ↦ rw (e, finish_time) (omega arith)
      | inr (q, e) ↦ rw (e, finish_time) (All-get_elem? IsLevel t.priority_queues j q v.levels e).1
    ]

    consider-pick :
        (i : ℕ) (q : QosQueue Carrier) (best : Carrier × Option ℕ)
        → get_elem? t.priority_queues i ≡ some q
        → i < length tokens
        → consider f i q (get_elem? tokens i) best
          ≡ some (pick law (ready t tokens) (finish_time t) i best)
    unfolding consider pick ready finish_time contents
    consider-pick i q best at h = let (count, held) = get_elem?_of_lt tokens i h in ground arith

    select_from-scan :
        (n i : ℕ) (best : Carrier × Option ℕ)
        → i + n ≡ length t.priority_queues
        → length t.priority_queues ≤ length tokens
        → select_from f n i t.priority_queues tokens best
          ≡ some (scan law (ready t tokens) (finish_time t) n i best).1
    unfolding select_from scan
    select_from-scan zero i best e h = refl
    select_from-scan (suc n) i best e h =
        let (q, at) = get_elem?_of_lt t.priority_queues i (omega arith) in
        rw (at, consider-pick i q best at (omega arith))
          (select_from-scan n (i + 1) _ (omega arith) h)

    -- With a token count for each level the choice is made without a fault. It is -1 exactly when no
    -- level is ready, that is, holds a packet and has a token. Otherwise it is a ready level, no
    -- ready level finishes earlier, and those with a smaller index finish later.
    pub select_queue_to_send_lem :
        t.total_queues ≤ length tokens
        → (choice : Option ℕ) × (select_queue_to_send f t tokens ≡ some choice)
          × IsEarliest (ready t tokens) (finish_time t) t.total_queues choice
    unfolding select_queue_to_send
    select_queue_to_send_lem h =
        let n = t.total_queues in
        let r = scan law (ready t tokens) (finish_time t) n 0 (max_value, none) in
        (
          r.1,
          select_from-scan n 0 (max_value, none) (omega (arith, v.counted))
              (omega (arith, v.counted)),
          IsEarliest-of_Holds law (ready t tokens) (finish_time t) n r (
              Holds-scan law (ready t tokens) (finish_time t) n 0 n (max_value, none)
                finish_time_bound (omega arith) (refl, λ j b. absurd (omega arith))),
        )
