-- ===== src/Qos/Receive/Served.antt =====
-- Data of a known type is queued for its downstreams without a fault, and the queues are served.
use mathlib.Core.List.{append-nil}
use nfd_qo_s.Base.{
  ℕ, ◌%◌, ◌^◌, ◌<◌, ◌≡◌, refl, sym, ◌∙◌, ◌↔◌, true, ◌&&◌, Option, some, List, [], ◌∷◌, arith, ◌==◌,
  All, Any,
}
use nfd_qo_s.Qos.Float.{Float, IsFloat}
use nfd_qo_s.Qos.TxQueue.{TxQueue}
use nfd_qo_s.Base.Assoc.{insert}
use nfd_qo_s.Qos.TxQueue.Levels.{contents}
use nfd_qo_s.Qos.Receive.{FaceKind, Arrived, item_of, queue_of, enqueue_for, enqueue_all}
use nfd_qo_s.Qos.Send.AllFaces.{Distinct}
use nfd_qo_s.Qos.Queue.{QueueItem}
use nfd_qo_s.Qos.TxQueue.Enqueue.{accepts, do_enqueue_lem}
use nfd_qo_s.Qos.Send.{has_faces}
use nfd_qo_s.Base.Occurs.{occurs}
use nfd_qo_s.Qos.Receive.Queues.{Fits, lookup-Fits, All-insert, Distinct-insert}
use nfd_qo_s.Fw.IncomingData.Faces.{IsIncreasing}
use nfd_qo_s.Qos.Receive.Queued.{
  room, Queued, AllSendable-after, take_nil, limit-Enqueued, Queued-step,
}
use nfd_qo_s.Qos.Receive.Downstreams.{AwaitsData}

module _ (f : Float) where
  open f use {Carrier}

  module _ (law : IsFloat f) (now levels level : ℕ) (h : level < levels) where
    pub enqueue_all_lem :
        (faces : ℕ → FaceKind) (item : QueueItem) (device : ℕ → Option ℕ) (gs : List ℕ)
        (m : List (ℕ × TxQueue Carrier))
        → ((g : ℕ) → has_faces (record item { outface = some g }) ≡ true)
        → All (λ e. Fits f levels e.1) m
        → Distinct m
        → All (λ e. (rate : ℕ) × (device e.0 ≡ some rate)) m
        → All (λ g. (rate : ℕ) × (device ((faces g).face_id % 2 ^ 32) ≡ some rate)) gs
        → (m' : List (ℕ × TxQueue Carrier)) × (enqueue_all f now levels faces item level gs m
            ≡ some m')
          × All (λ e. Fits f levels e.1) m'
          × Distinct m'
          × All (λ e. (rate : ℕ) × (device e.0 ≡ some rate)) m'
          × Queued f levels faces item level gs m m'
    unfolding enqueue_all enqueue_for
    enqueue_all_lem faces item device [] m ok fit d known ids = (
      m,
      refl,
      fit,
      d,
      known,
      λ k j.
          rw (take_nil f (room f j (queue_of f levels k m)))
            (sym (append-nil (contents j (queue_of f levels k m)))),
    )
    enqueue_all_lem faces item device (g ∷ gs) m ok fit d known (id_g, ids) =
        let face = (faces g).face_id % 2 ^ 32 in
        let x : QueueItem = record item { outface = some g } in
        let old = queue_of f levels face m in
        let (v, total, sendable) = lookup-Fits f levels face m fit in
        let (t, run, v', moved, total', others, level_after) =
          do_enqueue_lem f now x level old law v (omega arith) in
        let fit_t : Fits f levels t = (
          v',
          total' ∙ total,
          λ j.
              AllSendable-after f (accepts level old && (level == j)) x j old t (ok g) sendable
                (moved j),
        ) in
        let (m', rest, fit', d', known', later) =
          enqueue_all_lem faces item device gs (insert face t m) ok
            (All-insert f (λ e. Fits f levels e.1) face t m fit_t fit)
            (Distinct-insert f face t m d)
            (All-insert f (λ e. (rate : ℕ) × (device e.0 ≡ some rate)) face t m id_g known) ids in
        (
          m',
          rw (run, rest) refl,
          fit',
          d',
          known',
          λ k j.
              Queued-step f levels level faces item g gs m m' t j (moved j)
                (limit-Enqueued f now x level j old t (accepts level old) others level_after) later
                k,
        )

    -- What the handler puts into the queues: exactly the faces of the waiting in-records, each once,
    -- get the Data, behind what their queues hold at the level of the type, while there is room.
    pub record Delivered (a : Arrived) (pit_now : ℕ) (m m' : List (ℕ × TxQueue Carrier))
        : Type 0 where
      pub downstreams : List ℕ
      pub once : IsIncreasing downstreams
      pub waits : (g : ℕ) → (0 < occurs g downstreams) ↔ Any (AwaitsData a pit_now g) a.in_records
      pub queued : Queued f levels a.faces (item_of a) level downstreams m m'
