-- ===== src/Qos/Receive/Queued.antt =====
-- What the loop over the downstreams leaves in the queues.
use mathlib.Core.Path.{subst}
use mathlib.Core.List.{append_assoc}
use nfd_qo_s.Base.Assoc.{insert}
use nfd_qo_s.Qos.Send.Rounds.{AllSendable}
use nfd_qo_s.Base.{
  ℕ, zero, suc, ◌-◌, ◌%◌, ◌^◌, ◌≡◌, refl, sym, ap, ◌∙◌, ◌≢◌, inl, inr, Bool, true, false, ◌&&◌,
  some, List, [], ◌∷◌, ◌++◌, arith, ltb, ◌==◌, if◌then◌else◌, Bool-cases, if_true, if_false, length,
  get_elem?, take, All, length-append,
}
use nfd_qo_s.Qos.Float.{Float}
use nfd_qo_s.Qos.TxQueue.Enqueue.{limit, accepts, finish_after, LevelAfter}
use nfd_qo_s.Qos.Queue.{QueueItem, QosQueue}
use nfd_qo_s.Qos.Receive.{FaceKind, queue_of}
use nfd_qo_s.Qos.TxQueue.{TxQueue}
use nfd_qo_s.Qos.TxQueue.Levels.{contents}
use nfd_qo_s.Qos.Send.{has_faces}
use nfd_qo_s.Qos.Receive.Queues.{queue_of-insert}

All-append {ℓ κ} :
    {A : Type ℓ} (P : A → Type κ) (xs ys : List A) → All P xs → All P ys → All P (xs ++ ys)
All-append P [] ys p q = q
All-append P (x ∷ xs) ys (p, ps) q = (p, All-append P xs ys ps q)

module _ (f : Float) where
  open f use {Carrier}

  -- What arrives for the queue of a face identifier at a level, with the faces in turn.
  abbrev pub arrivals : (ℕ → FaceKind) → QueueItem → ℕ → ℕ → ℕ → List ℕ → List QueueItem
  arrivals faces item level k j [] = []
  arrivals faces item level k j (g ∷ gs) =
      let rest = arrivals faces item level k j gs in
      if (level == j) && ((faces g).face_id % 2 ^ 32 == k)
      then record item { outface = some g } ∷ rest
      else rest

  -- The room that a queue has left at a level.
  abbrev pub room : ℕ → TxQueue Carrier → ℕ
  room j t = limit j t - length (contents j t)

  -- What arrives goes behind what waits, as long as there is room.
  abbrev pub Queued :
      ℕ
      → (ℕ → FaceKind)
      → QueueItem
      → ℕ
      → List ℕ
      → List (ℕ × TxQueue Carrier)
      → List (ℕ × TxQueue Carrier)
      → Type 0
  Queued levels faces item level gs m m' =
      (k j : ℕ)
      → contents j (queue_of f levels k m')
        ≡ contents j (queue_of f levels k m)
          ++ take (room j (queue_of f levels k m)) (arrivals faces item level k j gs)

  pub AllSendable-after :
      (b : Bool) (x : QueueItem) (j : ℕ) (old t : TxQueue Carrier)
      → has_faces x ≡ true
      → AllSendable old
      → contents j t ≡ (if b then contents j old ++ x ∷ [] else contents j old)
      → All (λ item. has_faces item ≡ true) (contents j t)
  AllSendable-after true x j old t ok sendable e =
      subst (All (λ item. has_faces item ≡ true)) (sym e)
        (All-append (λ item. has_faces item ≡ true) (contents j old) (x ∷ []) (sendable j) (ok, tt))
  AllSendable-after false x j old t ok sendable e =
      subst (All (λ item. has_faces item ≡ true)) (sym e) (sendable j)

  pub take_nil : (n : ℕ) → take {A = QueueItem} n [] ≡ []
  take_nil zero = refl
  take_nil (suc n) = refl

  limit-at :
      (j : ℕ) (t : TxQueue Carrier) (q : QosQueue Carrier)
      → get_elem? t.priority_queues j ≡ some q
      → limit j t ≡ q.max_queue_size
  unfolding limit
  limit-at j t q at = rw (at, limit) refl

  pub limit-Enqueued :
      (now : ℕ) (item : QueueItem) (level j : ℕ) (t t' : TxQueue Carrier) (taken : Bool)
      → ((i : ℕ) → level ≢ i → get_elem? t'.priority_queues i ≡ get_elem? t.priority_queues i)
      → LevelAfter f now item level t t' taken
      → limit j t' ≡ limit j t
  unfolding limit
  limit-Enqueued now item level j t t' taken others (q, w, at, sum, at') =
      elim (Bool-cases (level == j)) [
        | inl here ↦
            let same : level ≡ j = ground (arith, here) in
            subst (λ i. limit i t' ≡ limit i t) same
              (limit-at level t' _ at' ∙ max_kept taken ∙ sym (limit-at level t q at))
        | inr there ↦ unmoved (others j (ground (arith, there)))
      ]
    where
      max_kept :
          (b : Bool)
          → (if b
              then record q {
                queue = q.queue ++ item ∷ [];
                last_virtual_finish_time = finish_after f now (length item.wire_encode) w q;
              }
              else q).max_queue_size
            ≡ q.max_queue_size
      max_kept true = refl
      max_kept false = refl

      unmoved :
          get_elem? t'.priority_queues j ≡ get_elem? t.priority_queues j → limit j t' ≡ limit j t
      unmoved e = rw (e, limit) refl

  and_true : (b c : Bool) → c ≡ true → (b && c) ≡ b
  and_true true c h = h
  and_true false c h = refl

  -- One item: taken while there is room.
  queued_one :
      (xs rest : List QueueItem) (x : QueueItem) (n : ℕ)
      → (let ys = if ltb (length xs) n then xs ++ x ∷ [] else xs in ys ++ take (n - length ys) rest)
        ≡ xs ++ take (n - length xs) (x ∷ rest)
  queued_one xs rest x n = elim (Bool-cases (ltb (length xs) n)) [
    | inl less ↦
        let len = length-append xs (x ∷ []) in
        let next : n - length xs ≡ suc (n - length (xs ++ x ∷ [])) = ground (arith, less, len) in
        rw (less, next) (append_assoc xs (x ∷ []) _)
    | inr full ↦
        let none_left : n - length xs ≡ 0 = ground (arith, full) in rw (full, none_left) refl
  ]

  -- The same at the queue that the first face has.
  Queued-here :
      (faces : ℕ → FaceKind) (item : QueueItem) (level g j : ℕ) (gs : List ℕ)
      (old t : TxQueue Carrier)
      → let face = (faces g).face_id % 2 ^ 32 in
        let x : QueueItem = record item { outface = some g } in
        contents j t
          ≡ (if accepts level old && (level == j) then contents j old ++ x ∷ [] else contents j old)
        → limit j t ≡ limit j old
        → contents j t
            ++ take (room j t) (arrivals faces item level ((faces g).face_id % 2 ^ 32) j gs)
          ≡ contents j old
            ++ take (room j old) (arrivals faces item level ((faces g).face_id % 2 ^ 32) j (g ∷ gs))
  unfolding accepts
  Queued-here faces item level g j gs old t moved same =
      let k : ℕ = (faces g).face_id % 2 ^ 32 in
      let x : QueueItem = record item { outface = some g } in
      let xs = contents j old in
      let rest = arrivals faces item level k j gs in
      let n = limit j old in
      elim (Bool-cases (level == j)) [
        | inl here ↦
            let level_j : level ≡ j = ground (arith, here) in
            let test : ((level == j) && (k == k)) ≡ true = ground (arith, here) in
            let at_j : accepts level old ≡ ltb (length xs) n =
              subst (λ i. accepts level old ≡ ltb (length (contents i old)) (limit i old)) level_j
                refl in
            let takes : (accepts level old && (level == j)) ≡ ltb (length xs) n =
              ap (λ b. b && (level == j)) at_j ∙ and_true (ltb (length xs) n) (level == j) here in
            let ys = moved ∙ ap (λ b. if b then xs ++ x ∷ [] else xs) takes in
            ap (λ c. contents j t ++ take (c - length (contents j t)) rest) same
            ∙ ap (λ c. c ++ take (n - length c) rest) ys
            ∙ queued_one xs rest x n
            ∙ ap (λ l. xs ++ take (room j old) l) (sym (if_true _ _ test))
        | inr there ↦
            let test : ((level == j) && (k == k)) ≡ false = ground (arith, there) in
            let idle : (accepts level old && (level == j)) ≡ false = ground (arith, there) in
            let ys = moved ∙ if_false _ _ idle in
            ap (λ c. contents j t ++ take (c - length (contents j t)) rest) same
            ∙ ap (λ c. c ++ take (n - length c) rest) ys
            ∙ ap (λ l. xs ++ take (room j old) l) (sym (if_false _ _ test))
      ]

  pub Queued-step :
      (levels level : ℕ) (faces : ℕ → FaceKind) (item : QueueItem) (g : ℕ) (gs : List ℕ)
      (m m' : List (ℕ × TxQueue Carrier)) (t : TxQueue Carrier)
      → let face = (faces g).face_id % 2 ^ 32 in
        let x : QueueItem = record item { outface = some g } in
        let old = queue_of f levels face m in
        (j : ℕ)
        → contents j t
          ≡ (if accepts level old && (level == j) then contents j old ++ x ∷ [] else contents j old)
        → limit j t ≡ limit j old
        → Queued levels faces item level gs (insert face t m) m'
        → (k : ℕ)
        → contents j (queue_of f levels k m')
          ≡ contents j (queue_of f levels k m)
            ++ take (room j (queue_of f levels k m)) (arrivals faces item level k j (g ∷ gs))
  Queued-step levels level faces item g gs m m' t j moved same later k =
      let face : ℕ = (faces g).face_id % 2 ^ 32 in
      let old = queue_of f levels face m in
      let set_queue = queue_of-insert f levels k face t m in
      elim (Bool-cases (face == k)) [
        | inl here ↦
            let face_k : face ≡ k = ground (arith, here) in
            later k j
            ∙ ap (λ q. contents j q ++ take (room j q) (arrivals faces item level k j gs))
                (set_queue ∙ if_true _ _ here)
            ∙ subst
                (λ i.
                  contents j t ++ take (room j t) (arrivals faces item level i j gs)
                  ≡ contents j (queue_of f levels i m)
                    ++ take (room j (queue_of f levels i m))
                        (arrivals faces item level i j (g ∷ gs)))
                face_k (Queued-here faces item level g j gs old t moved same)
        | inr there ↦
            let test : ((level == j) && (face == k)) ≡ false = ground (arith, there) in
            let q = queue_of f levels k m in
            later k j
            ∙ ap (λ u. contents j u ++ take (room j u) (arrivals faces item level k j gs))
                (set_queue ∙ if_false _ _ there)
            ∙ ap (λ l. contents j q ++ take (room j q) l) (sym (if_false _ _ test))
      ]
