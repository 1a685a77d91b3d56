-- ===== src/Qos/Receive.antt =====
-- `QosStrategy::afterReceiveData` of daemon/fw/qos-strategy.cpp. Faces are numbers; their
-- identifiers and link types are a parameter, as is the device of Qos/Send. Two times are read:
-- that of the PIT records and that of the queues.
pub mod Downstreams
pub mod Queues
pub mod Queued
pub mod Served
pub mod Unknown
use mathlib.Core.Option
use nfd_qo_s.Base.{
  ℕ, ◌%◌, ◌^◌, Bool, not, ◌&&◌, Option, none, some, List, [], ◌∷◌, ltb, ◌==◌, if◌then◌else◌, ◌>>=◌,
}
use nfd_qo_s.Base.Assoc.{lookup, insert}
use nfd_qo_s.Table.Pit.{InRecord, OutRecord}
use nfd_qo_s.Qos.Send.{Pass, priority_send}
use nfd_qo_s.Qos.Stats.{Rates, PrTypes, get_pr_type, FaceStats, before_satisfy_interest}
use nfd_qo_s.Qos.Queue.{content, QueueItem}
use nfd_qo_s.Qos.Float.{Float}
use nfd_qo_s.Fw.IncomingData.{insert_face}
use nfd_qo_s.Qos.TxQueue.{TxQueue, initialize, do_enqueue}
use nfd_qo_s.Qos.Bucket.{TokenBucket}

pub record FaceKind : Type 0 where
  pub face_id : ℕ
  pub is_ad_hoc : Bool

-- The loop over the in-records; a `std::set` of faces.
unfoldable pub pending_downstreams : (ℕ → FaceKind) → ℕ → ℕ → List InRecord → List ℕ → List ℕ
unfolding insert_face
pending_downstreams faces now in_face [] found = found
pending_downstreams faces now in_face (r ∷ rs) found =
    let back =
      (faces r.base.face).face_id == (faces in_face).face_id && not (faces r.base.face).is_ad_hoc in
    pending_downstreams faces now in_face rs
      (if ltb now r.base.expiry && not back then insert_face r.base.face found else found)

-- What the handler is given.
pub record Arrived : Type 0 where
  pub faces : ℕ → FaceKind
  pub in_face : ℕ
  pub name : List ℕ
  pub wire_encode : List ℕ
  pub pit_entry : ℕ
  pub in_records : List InRecord
  pub out_records : List OutRecord

abbrev pub item_of : Arrived → QueueItem
item_of a = record {
  wire_encode = a.wire_encode;
  packet_type = content;
  pit_entry = some a.pit_entry;
  inface = some a.in_face;
  outface = none;
}

module _ (f : Float) where
  open f use {Carrier}

  -- `m_tx_queue[f]`, made with the levels of `m_successReqs` if it is not there.
  abbrev pub queue_of : ℕ → ℕ → List (ℕ × TxQueue Carrier) → TxQueue Carrier
  queue_of levels face m = Option.get_or (lookup face m) (initialize f levels)

  unfoldable pub enqueue_for :
      ℕ
      → ℕ
      → QueueItem
      → ℕ
      → ℕ
      → List (ℕ × TxQueue Carrier)
      → Option (List (ℕ × TxQueue Carrier) × Bool)
  enqueue_for now levels item level face m = do
    (tx, taken) ← do_enqueue f now item level (queue_of levels face m)
    some (insert face tx m, taken)

  -- The loop over the pending downstreams.
  unfoldable pub enqueue_all :
      ℕ
      → ℕ
      → (ℕ → FaceKind)
      → QueueItem
      → ℕ
      → List ℕ
      → List (ℕ × TxQueue Carrier)
      → Option (List (ℕ × TxQueue Carrier))
  unfolding enqueue_for
  enqueue_all now levels faces item level [] m = some m
  enqueue_all now levels faces item level (g ∷ gs) m = do
    (m', taken) ←
        enqueue_for now levels (record item { outface = some g }) level ((faces g).face_id % 2 ^ 32)
          m
    enqueue_all now levels faces item level gs m'

  module _ (rates : Rates) where
    unfoldable pub after_receive_data :
        PrTypes
        → ℕ
        → (ℕ → Option ℕ)
        → ℕ
        → ℕ
        → Arrived
        → List (List ℕ × FaceStats rates)
        → List (ℕ × TxQueue Carrier)
        → List TokenBucket
        → Option (List (List ℕ × FaceStats rates) × Pass f)
    unfolding enqueue_all pending_downstreams
    after_receive_data types levels device pit_now now a stats tx_queue buckets =
        let stats' = before_satisfy_interest rates a.name a.in_face a.out_records stats in
        let downstreams = pending_downstreams a.faces pit_now a.in_face a.in_records [] in
        do
          m ←
              enqueue_all now levels a.faces (item_of a) (get_pr_type types a.name) downstreams
                tx_queue
          p ← priority_send f device m buckets
          some (stats', p)
