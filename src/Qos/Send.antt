-- ===== src/Qos/Send.antt =====
-- `QosStrategy::prioritySend` of daemon/fw/qos-strategy.cpp. The simulator's device queue behind a
-- face is a parameter: `device face` is the number of packets in it, 25 where the face's transport
-- is no net device, and `none` where the face table has no such face, which the code would
-- dereference. The buckets are those that the node's driver holds, one for each level.
pub mod Drain
pub mod Rounds
pub mod AllFaces
pub mod Starvation
use nfd_qo_s.Base.{
  ℕ, zero, suc, ◌+◌, ◌-◌, Bool, true, false, ◌&&◌, ◌||◌, Option, none, some, List, [], ◌∷◌, ◌++◌,
  map, ◌==◌, if◌then◌else◌, ◌>>=◌, get_elem?, set,
}
use nfd_qo_s.Base.Int.{pos}
use nfd_qo_s.Base.Assoc.{insert}
use nfd_qo_s.Qos.Float.{Float}
use nfd_qo_s.Qos.Queue.{QosPacketType, invalid, interest, content, nack, QueueItem}
use nfd_qo_s.Qos.Bucket.{TokenBucket, tokens_at, consume_token}
use nfd_qo_s.Qos.TxQueue.{TxQueue, select_queue_to_send, all_empty, do_dequeue, token_req}

-- What the `switch` on the packet type does with a dequeued item.
pub data Action : Type 0 where
  send_interest send_data process_nack no_action : Action

abbrev pub is_face : Option ℕ → Bool
is_face none = false
is_face (some face) = true

unfoldable pub action : QosPacketType → Action
action interest = send_interest
action content = send_data
action nack = process_nack
action invalid = no_action

-- Whether no null pointer is read: the cases of the `switch` read `*item.inface`, and all but that
-- of a Nack read `*item.outface`.
unfoldable pub has_faces : QueueItem → Bool
unfolding action
has_faces item = elim (action item.packet_type) [
  | no_action ↦ true
  | process_nack ↦ is_face item.inface
  | send_interest ↦ is_face item.inface && is_face item.outface
  | send_data ↦ is_face item.inface && is_face item.outface
]

-- The `switch`, where `none` is the read of a null pointer.
unfoldable pub dispatched : QueueItem → Option Action
unfolding has_faces
dispatched item = if has_faces item then some (action item.packet_type) else none

-- What leaves the strategy: a signal `noLongerAtCapacity` of a bucket, or an item of a level.
pub data Output : Type 0 where
  left_capacity : ℕ → Output
  sent : ℕ → ℕ → Action → QueueItem → Output

pub record Drained (F : Type 0) : Type 0 where
  pub tx : TxQueue F
  pub buckets : List TokenBucket
  pub waiting : Bool
  pub outputs : List Output

-- `buckets[i]->m_need[face] = m_tx_queue[face].tokenReq(i)` for each bucket.
pub set_needs : {F : Type 0} → ℕ → ℕ → TxQueue F → List TokenBucket → Option (List TokenBucket)
set_needs i face tx [] = some []
set_needs i face tx (b ∷ bs) = do
  required ← token_req i tx
  bs' ← set_needs (i + 1) face tx bs
  some (record b { need = insert face (pos required) b.need } ∷ bs')

-- The use of the chosen bucket: `hasFaces`, `consumeToken` and the face's need.
pub spend : ℕ → TokenBucket → TokenBucket × Bool
unfolding consume_token
spend face b =
    let (b', left) = consume_token (pos 1) face (record b { has_faces = true }) in
    (record b' { need = insert face (pos 0) b'.need }, left)

pub signals : ℕ → Bool → List Output
signals level true = left_capacity level ∷ []
signals level false = []

module _ (f : Float) where
  open f use {Carrier}

  -- The inner loop, for one face. The first argument is 25 less the packets in the device queue,
  -- that is, the rounds before `rate < 25` fails.
  pub drain : ℕ → ℕ → Bool → TxQueue Carrier → List TokenBucket → Option (Drained Carrier)
  drain zero face waiting tx buckets = do
    empty ← all_empty tx
    some (record { tx = tx; buckets = buckets; waiting = waiting; outputs = [] })
  drain (suc n) face waiting tx buckets = do
    empty ← all_empty tx
    if empty || waiting
        then some (record { tx = tx; buckets = buckets; waiting = waiting; outputs = [] })
        else (do
          choice ← select_queue_to_send f tx (map (tokens_at face) buckets)
          elim choice [
            | none ↦ (do
              buckets' ← set_needs 0 face tx buckets
              some (record { tx = tx; buckets = buckets'; waiting = true; outputs = [] }))
            | some level ↦ (do
              sender ← get_elem? buckets level
              let (sender', left) = spend face sender
              (item, tx') ← do_dequeue level tx
              act ← dispatched item
              d ← drain n face waiting tx' (set buckets level sender')
              some (record d {
                outputs = signals level left ++ sent face level act item ∷ d.outputs;
              }))
          ])

  pub record Pass : Type 0 where
    pub tx_queue : List (ℕ × TxQueue Carrier)
    pub buckets : List TokenBucket
    pub outputs : List Output

  -- The outer loop, over the faces that have queues. `waiting` is `tokenwait`.
  unfoldable pub pass :
      (ℕ → Option ℕ) → List (ℕ × TxQueue Carrier) → List TokenBucket → Bool → Option Pass
  unfolding drain set_needs spend signals dispatched
  pass device [] buckets waiting = some (record { tx_queue = []; buckets = buckets; outputs = [] })
  pass device ((face, tx) ∷ rest) buckets waiting = do
    rate ← device face
    d ← drain (25 - rate) face waiting tx buckets
    p ← pass device rest d.buckets d.waiting
    some (record {
      tx_queue = (face, d.tx) ∷ p.tx_queue;
      buckets = p.buckets;
      outputs = d.outputs ++ p.outputs;
    })

  unfoldable pub priority_send :
      (ℕ → Option ℕ) → List (ℕ × TxQueue Carrier) → List TokenBucket → Option Pass
  unfolding pass
  priority_send device tx_queue buckets = pass device tx_queue buckets false

-- The items that went out to a face from a level, in order.
pub sent_items : ℕ → ℕ → List Output → List QueueItem
sent_items face level [] = []
sent_items face level (left_capacity l ∷ os) = sent_items face level os
sent_items face level (sent g l a item ∷ os) =
    let rest = sent_items face level os in if g == face && l == level then item ∷ rest else rest
