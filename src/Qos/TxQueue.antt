-- ===== src/Qos/TxQueue.antt =====
-- `NdnPriorityTxQueue` of daemon/fw/ndn-priority-tx-queue.hpp and ndn-priority-tx-queue.cpp: one
-- `QosQueue` for each priority level, served by weighted fair queueing. An index outside the vector
-- is a fault, `none`.
pub mod Levels
pub mod Choice
pub mod Enqueue
use nfd_qo_s.Base.{
  ℕ, zero, suc, ◌+◌, max, Bool, true, false, ◌&&◌, Option, none, some, List, [], ◌∷◌, if◌then◌else◌,
  ◌>>=◌, length, get_elem?, set,
}
use nfd_qo_s.Base.Int.{ℤ, pos, le_ℤ}
use nfd_qo_s.Qos.Float.{Float}
use nfd_qo_s.Qos.Queue.{
  QueueItem, empty_item, QosQueue, new_queue, set_weight, set_last_virtual_finish_time, enqueue,
  dequeue, is_empty,
}

pub record TxQueue (F : Type 0) : Type 0 where
  pub priority_queues : List (QosQueue F)
  pub total_queues : ℕ

module _ (f : Float) where
  open f use {Carrier, of_nat, add, sub, mul, div, lt, max_value, to_u64}

  -- The rounds of `initialize` that are left; the weights fall from `queues` to 1.
  unfoldable pub initialize_from : ℕ → List (QosQueue Carrier)
  initialize_from zero = []
  initialize_from (suc n) = set_weight (of_nat (suc n)) (new_queue f) ∷ initialize_from n

  -- `initialize`, on a newly made object.
  unfoldable pub initialize : ℕ → TxQueue Carrier
  unfolding initialize_from
  initialize queues = record { priority_queues = initialize_from queues; total_queues = queues }

  pub total_weight : ℕ → ℕ → List (QosQueue Carrier) → Carrier → Option Carrier
  total_weight zero i qs total = some total
  total_weight (suc n) i qs total = do
    q ← get_elem? qs i
    total_weight n (i + 1) qs (add total q.weight)

  unfoldable pub get_flow_rate : TxQueue Carrier → QosQueue Carrier → Option Carrier
  unfolding total_weight
  get_flow_rate t q = do
    total ← total_weight t.total_queues 0 t.priority_queues (of_nat 0)
    some (div q.weight total)

  -- `now` is the simulator's clock in milliseconds, `size` the size of the packet's block.
  unfoldable pub update_time :
      ℕ → ℕ → TxQueue Carrier → QosQueue Carrier → Option (QosQueue Carrier)
  unfolding get_flow_rate
  update_time now size t q = do
    rate ← get_flow_rate t q
    let start = max now q.last_virtual_finish_time
    let finish = add (of_nat start) (mul (of_nat size) (sub (of_nat 1) rate))
    some (set_last_virtual_finish_time (to_u64 finish) q)

  abbrev Best : Type 0
  Best = Carrier × Option ℕ

  -- The body of the loop of `SelectQueueToSend`; `token` is `tokens[i]`, read only where the queue
  -- holds a packet.
  consider : ℕ → QosQueue Carrier → Option ℤ → Best → Option Best
  unfolding is_empty
  consider i q token (least, chosen) = if is_empty q then some (least, chosen) else (do
    tokens ← token
    some (
        if le_ℤ (pos 1) tokens && lt (of_nat q.last_virtual_finish_time) least
        then (of_nat q.last_virtual_finish_time, some i)
        else (least, chosen)))

  select_from : ℕ → ℕ → List (QosQueue Carrier) → List ℤ → Best → Option (Option ℕ)
  unfolding consider
  select_from zero i qs tokens (least, chosen) = some chosen
  select_from (suc n) i qs tokens best = do
    q ← get_elem? qs i
    best' ← consider i q (get_elem? tokens i) best
    select_from n (i + 1) qs tokens best'

  -- `none` inside is the result -1.
  unfoldable pub select_queue_to_send : TxQueue Carrier → List ℤ → Option (Option ℕ)
  unfolding select_from
  select_queue_to_send t tokens =
      select_from t.total_queues 0 t.priority_queues tokens (max_value, none)

  -- The state afterwards, and whether the item was taken.
  unfoldable pub do_enqueue : ℕ → QueueItem → ℕ → TxQueue Carrier → Option (TxQueue Carrier × Bool)
  unfolding enqueue update_time
  do_enqueue now item pr_level t = do
    q ← get_elem? t.priority_queues pr_level
    let (q', taken) = enqueue item q
    let t' = record t { priority_queues = set t.priority_queues pr_level q' }
    if taken
        then (do
          q'' ← update_time now (length item.wire_encode) t' q'
          some (record t { priority_queues = set t.priority_queues pr_level q'' }, true))
        else some (t', false)

module _ {F : Type 0} where
  is_empty_from : ℕ → ℕ → List (QosQueue F) → Bool → Option Bool
  unfolding is_empty
  is_empty_from zero i qs empty = some empty
  is_empty_from (suc n) i qs empty = do
    q ← get_elem? qs i
    is_empty_from n (i + 1) qs (empty && is_empty q)

  unfoldable pub all_empty : TxQueue F → Option Bool
  unfolding is_empty_from
  all_empty t = is_empty_from t.total_queues 0 t.priority_queues true

  unfoldable pub do_dequeue : ℕ → TxQueue F → Option (QueueItem × TxQueue F)
  unfolding dequeue all_empty
  do_dequeue choice t = do
    empty ← all_empty t
    if empty then some (empty_item, t) else (do
      q ← get_elem? t.priority_queues choice
      let (item, q') = dequeue q
      some (item, record t { priority_queues = set t.priority_queues choice q' }))

  -- `tokenReq`
  unfoldable pub token_req : ℕ → TxQueue F → Option ℕ
  unfolding is_empty
  token_req bucket t = do q ← get_elem? t.priority_queues bucket; some (if is_empty q then 0 else 1)
