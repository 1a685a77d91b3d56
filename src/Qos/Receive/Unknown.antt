-- ===== src/Qos/Receive/Unknown.antt =====
-- Data of a type that `getPrType` does not know, in `QosStrategy::afterReceiveData`.
use nfd_qo_s.Qos.TxQueue.Levels.{IsValid}
use nfd_qo_s.Qos.Receive.Queues.{Fits, lookup-Fits, IsServable-Fits}
use nfd_qo_s.Qos.Send.AllFaces.{IsServable}
use nfd_qo_s.Base.{
  ℕ, ◌%◌, ◌^◌, ◌≤◌, ◌<◌, ◌≡◌, refl, ◌≢◌, inl, inr, Option, none, some, List, [], ◌∷◌, arith,
  Option-cases, length, get_elem?, All, Any, lt_of_get_elem?,
}
use nfd_qo_s.Qos.Stats.{Rates, PrTypes, get_pr_type, FaceStats}
use nfd_qo_s.Qos.Float.{Float}
use nfd_qo_s.Qos.Receive.{
  FaceKind, pending_downstreams, Arrived, item_of, queue_of, enqueue_for, enqueue_all,
  after_receive_data,
}
use nfd_qo_s.Qos.TxQueue.{TxQueue, do_enqueue}
use nfd_qo_s.Qos.Bucket.{TokenBucket}
use nfd_qo_s.Qos.Queue.{QueueItem}
use nfd_qo_s.Base.Occurs.{occurs}
use nfd_qo_s.Qos.Receive.Downstreams.{AwaitsData, pending_downstreams-AwaitsData}

-- The second component of the name, which tells the type, is none of the three.
abbrev pub IsUnknown : PrTypes → List ℕ → Type 0
IsUnknown types [] = Unit
IsUnknown types (c ∷ []) = Unit
IsUnknown types (c ∷ d ∷ ds) = (d ≢ types.type_one) × (d ≢ types.type_two) × (d ≢ types.type_three)

get_pr_type-IsUnknown :
    (types : PrTypes) (name : List ℕ) → IsUnknown types name → get_pr_type types name ≡ 715
unfolding get_pr_type
get_pr_type-IsUnknown types [] h = refl
get_pr_type-IsUnknown types (c ∷ []) h = refl
get_pr_type-IsUnknown types (c ∷ d ∷ ds) (one, two, three) = ground (arith, one, two, three)

module _ (f : Float) where
  open f use {Carrier}

  do_enqueue_outside :
      (now : ℕ) (item : QueueItem) (level : ℕ) (t : TxQueue Carrier)
      → IsValid t
      → t.total_queues ≤ level
      → do_enqueue f now item level t ≡ none
  unfolding do_enqueue
  do_enqueue_outside now item level t v h =
      elim (Option-cases (get_elem? t.priority_queues level)) [
        | inl e ↦ rw e refl
        | inr (q, e) ↦
            absurd (omega (arith, lt_of_get_elem? t.priority_queues level q e, v.counted))
      ]

  enqueue_all_outside :
      (now levels level g : ℕ) (faces : ℕ → FaceKind) (item : QueueItem) (gs : List ℕ)
      (m : List (ℕ × TxQueue Carrier))
      → All (λ e. Fits f levels e.1) m
      → levels ≤ level
      → 0 < occurs g gs
      → enqueue_all f now levels faces item level gs m ≡ none
  unfolding enqueue_all enqueue_for
  enqueue_all_outside now levels level g faces item [] m fit h some_face =
      absurd (omega (arith, some_face))
  enqueue_all_outside now levels level g faces item (k ∷ gs) m fit h some_face =
      let face : ℕ = (faces k).face_id % 2 ^ 32 in
      let (v, total, sendable) = lookup-Fits f levels face m fit in
      let fault =
        do_enqueue_outside now (record item { outface = some k }) level (queue_of f levels face m) v
          (omega (arith, total)) in
      rw fault refl

  -- Data of a type that `getPrType` does not know, with a face that waits for it, makes
  -- `afterReceiveData` index outside the queues of that face, where no face has 716 levels or more.
  pub after_receive_data-unknown :
      (rates : Rates) (types : PrTypes) (levels : ℕ) (device : ℕ → Option ℕ) (pit_now now g : ℕ)
      (a : Arrived) (stats : List (List ℕ × FaceStats rates)) (m : List (ℕ × TxQueue Carrier))
      (bs : List TokenBucket)
      → IsUnknown types a.name
      → levels ≤ 715
      → IsServable device m bs
      → length bs ≡ levels
      → Any (AwaitsData a pit_now g) a.in_records
      → after_receive_data f rates types levels device pit_now now a stats m bs ≡ none
  unfolding after_receive_data
  after_receive_data-unknown rates types levels device pit_now now g a stats m bs unknown few serve
        buckets waits =
      let gs = pending_downstreams a.faces pit_now a.in_face a.in_records [] in
      let fit = IsServable-Fits f levels device m bs serve buckets in
      let found = (pending_downstreams-AwaitsData a pit_now g a.in_records []).1 (inl waits) in
      let fault = enqueue_all_outside now levels 715 g a.faces (item_of a) gs m fit few found in
      rw (get_pr_type-IsUnknown types a.name unknown, fault) refl
