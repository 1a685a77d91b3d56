-- ===== src/Qos/Send/Rounds.antt =====
-- The inner loop of `prioritySend` from start to end: it makes no fault, and does what `Drains` says.
use mathlib.Core.Path.{subst}
use nfd_qo_s.Base.{
  ℕ, zero, suc, ◌≡◌, refl, sym, ◌∙◌, inl, inr, true, false, Option, none, some, List, [], ◌∷◌, ◌++◌,
  map, arith, ◌==◌, if◌then◌else◌, Bool-cases, length, set, All, length-set, length-map,
}
use nfd_qo_s.Qos.Float.{Float, IsFloat}
use nfd_qo_s.Qos.Bucket.{TokenBucket, tokens_at}
use nfd_qo_s.Qos.TxQueue.{TxQueue, select_queue_to_send}
use nfd_qo_s.Qos.Send.{action, has_faces, dispatched, sent, Drained, spend, signals, drain}
use nfd_qo_s.Qos.TxQueue.Levels.{contents, IsValid, backlog, all_empty_lem, do_dequeue_lem}
use nfd_qo_s.Qos.Send.Drain.{
  count, set_needs-Noted, ready-item, IsBlocked, IsBlocked-of_ready, Drains, quiet, step-Drains,
}
use nfd_qo_s.Qos.TxQueue.Choice.{ready, finish_time, IsEarliest, select_queue_to_send_lem}
use nfd_qo_s.Qos.Queue.{QueueItem}

module _ {F : Type 0} where
  -- No item that waits would make the `switch` read a null pointer.
  abbrev pub AllSendable : TxQueue F → Type 0
  AllSendable tx = (j : ℕ) → All (λ item. has_faces item ≡ true) (contents j tx)

  AllSendable-rest :
      (level : ℕ) (item : QueueItem) (rest : List QueueItem) (tx tx' : TxQueue F)
      → AllSendable tx
      → contents level tx ≡ item ∷ rest
      → ((j : ℕ) → contents j tx' ≡ (if level == j then rest else contents j tx))
      → (has_faces item ≡ true) × AllSendable tx'
  AllSendable-rest level item rest tx tx' sendable front moved =
      let here = subst (All (λ i. has_faces i ≡ true)) front (sendable level) in
      (
        here.0,
        λ j. subst (All (λ i. has_faces i ≡ true)) (sym (moved j)) (elim (Bool-cases (level == j)) [
          | inl same ↦ rw same here.1
          | inr other ↦ rw other (sendable j)
        ]),
      )

module _ (f : Float) (law : IsFloat f) where
  open f use {Carrier}

  IsBlocked-of_count :
      (face j : ℕ) (tx : TxQueue Carrier) (bs bs' : List TokenBucket)
      → count face j bs' ≡ count face j bs
      → IsBlocked face j tx bs
      → IsBlocked face j tx bs'
  IsBlocked-of_count face j tx bs bs' e h = rw e h

  pub drain-waiting :
      (n face : ℕ) (tx : TxQueue Carrier) (bs : List TokenBucket)
      → IsValid tx
      → drain f n face true tx bs
        ≡ some (record { tx = tx; buckets = bs; waiting = true; outputs = [] })
  unfolding drain
  drain-waiting zero face tx bs v = rw (all_empty_lem tx v)
  drain-waiting (suc n) face tx bs v = ground (arith, all_empty_lem tx v)

  -- A round in which no level is ready: each bucket notes what the face needs, and the loop waits.
  drain_blocked :
      (n face : ℕ) (tx : TxQueue Carrier) (bs : List TokenBucket)
      → IsValid tx
      → tx.total_queues ≡ length bs
      → (backlog tx.priority_queues == 0) ≡ false
      → select_queue_to_send f tx (map (tokens_at face) bs) ≡ some none
      → IsEarliest f (ready tx (map (tokens_at face) bs)) (finish_time tx) tx.total_queues none
      → (d : Drained Carrier) × (drain f (suc n) face false tx bs ≡ some d)
        × Drains face (suc n) tx bs d
  unfolding drain
  drain_blocked n face tx bs v e busy run none_ready =
      let noted = set_needs-Noted 0 face tx bs (omega (arith, v.counted)) in
      (
        record { tx = tx; buckets = noted.buckets; waiting = true; outputs = [] },
        ground (arith, all_empty_lem tx v, noted.run),
        quiet face (suc n) tx bs noted.buckets true v noted.same_length noted.same_count (λ h. cc)
            (λ _ j h.
              IsBlocked-of_count face j tx bs noted.buckets (noted.same_count face j)
                (IsBlocked-of_ready face j tx bs (none_ready j h))),
      )

  -- A round in which an item goes out.
  drain_sends :
      (n face level : ℕ) (tx : TxQueue Carrier) (bs : List TokenBucket)
      → ((tx' : TxQueue Carrier) (bs' : List TokenBucket)
          → IsValid tx'
          → tx'.total_queues ≡ length bs'
          → AllSendable tx'
          → (d : Drained Carrier) × (drain f n face false tx' bs' ≡ some d)
            × Drains face n tx' bs' d)
      → IsValid tx
      → tx.total_queues ≡ length bs
      → AllSendable tx
      → (backlog tx.priority_queues == 0) ≡ false
      → select_queue_to_send f tx (map (tokens_at face) bs) ≡ some (some level)
      → ready tx (map (tokens_at face) bs) level ≡ true
      → (d : Drained Carrier) × (drain f (suc n) face false tx bs ≡ some d)
        × Drains face (suc n) tx bs d
  unfolding drain dispatched
  drain_sends n face level tx bs ih v e sendable busy run is_ready =
      let (item, rest, b, front, at, funded) = ready-item face level tx bs is_ready in
      let (tx', popped, v', moved, same) = do_dequeue_lem tx level item rest v front in
      let (ok, sendable') = AllSendable-rest level item rest tx tx' sendable front moved in
      let (d, loop, r) =
        ih tx' (set bs level (spend face b).0) v'
          (same ∙ e ∙ sym (length-set bs level (spend face b).0)) sendable' in
      (
        record d {
          outputs =
              signals level (spend face b).1
              ++ sent face level (action item.packet_type) item ∷ d.outputs;
        },
        ground (arith, all_empty_lem tx v),
        step-Drains face n level (spend face b).1 (action item.packet_type) item rest tx tx' bs b d
            moved front at funded same r,
      )

  -- On a valid queue with a level for each bucket, whose items have the faces that the `switch` reads,
  -- the inner loop for a face makes no fault and does what `Drains` lists: what it sends, what it costs,
  -- and when it stops.
  pub drain-Drains :
      (n face : ℕ) (tx : TxQueue Carrier) (bs : List TokenBucket)
      → IsValid tx
      → tx.total_queues ≡ length bs
      → AllSendable tx
      → (d : Drained Carrier) × (drain f n face false tx bs ≡ some d) × Drains face n tx bs d
  unfolding drain
  drain-Drains zero face tx bs v e sendable = (
    record { tx = tx; buckets = bs; waiting = false; outputs = [] },
    rw (all_empty_lem tx v),
    quiet face 0 tx bs bs false v refl (λ k j. refl) (λ _. inl refl) (λ h. cc),
  )
  drain-Drains (suc n) face tx bs v e sendable =
      elim (Bool-cases (backlog tx.priority_queues == 0)) [
        | inl idle ↦ (
          record { tx = tx; buckets = bs; waiting = false; outputs = [] },
          ground (arith, all_empty_lem tx v),
          quiet face (suc n) tx bs bs false v refl (λ k j. refl) (λ _. inr (ground arith))
              (λ h. cc),
        )
        | inr busy ↦
            let tokens = map (tokens_at face) bs in
            let (choice, run, spec) =
              select_queue_to_send_lem f law tx v tokens
                (omega (arith, e, length-map (tokens_at face) bs)) in
            chosen (drain-Drains n face) choice run spec busy
      ]
    where
      chosen :
          ((tx' : TxQueue Carrier) (bs' : List TokenBucket)
            → IsValid tx'
            → tx'.total_queues ≡ length bs'
            → AllSendable tx'
            → (d : Drained Carrier) × (drain f n face false tx' bs' ≡ some d)
              × Drains face n tx' bs' d)
          → (choice : Option ℕ) → select_queue_to_send f tx (map (tokens_at face) bs) ≡ some choice
          → IsEarliest f
              (ready tx (map (tokens_at face) bs))
              (finish_time tx)
              tx.total_queues
              choice
          → (backlog tx.priority_queues == 0) ≡ false
          → (d : Drained Carrier) × (drain f (suc n) face false tx bs ≡ some d)
            × Drains face (suc n) tx bs d
      chosen ih none run spec busy = drain_blocked n face tx bs v e busy run spec
      chosen ih (some level) run spec busy =
          drain_sends n face level tx bs ih v e sendable busy run spec.1
