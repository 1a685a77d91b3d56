-- ===== src/Qos/Send/AllFaces.antt =====
-- The outer loop of `prioritySend`, over the faces that have queues.
use mathlib.Core.List.{append-nil}
use nfd_qo_s.Base.{
  ℕ, ◌+◌, ◌-◌, ◌≡◌, refl, ap, ◌≢◌, ◌⊎◌, inl, inr, Bool, true, false, Option, none, some, List, [],
  ◌∷◌, ◌++◌, arith, ◌==◌, Bool-cases, length, All, length-append,
}
use nfd_qo_s.Base.Assoc.{lookup}
use nfd_qo_s.Qos.Float.{Float, IsFloat}
use nfd_qo_s.Qos.Bucket.{TokenBucket}
use nfd_qo_s.Qos.TxQueue.{TxQueue}
use nfd_qo_s.Qos.Send.{
  Output, left_capacity, sent, Drained, drain, Pass, pass, priority_send, sent_items,
}
use nfd_qo_s.Qos.Send.Drain.{count, Drains}
use nfd_qo_s.Base.Int.{ℤ, pos, pos_part, neg_part, ◌+ℤ◌, ◌≤ℤ◌, int_laws}
use nfd_qo_s.Qos.TxQueue.Levels.{contents, IsValid}
use nfd_qo_s.Qos.Send.Rounds.{AllSendable, drain-waiting, drain-Drains}

sent_items-append :
    (g j : ℕ) (xs ys : List Output)
    → sent_items g j (xs ++ ys) ≡ sent_items g j xs ++ sent_items g j ys
unfolding sent_items
sent_items-append g j [] ys = refl
sent_items-append g j (left_capacity l ∷ xs) ys = sent_items-append g j xs ys
sent_items-append g j (sent h l a item ∷ xs) ys = ground (arith, sent_items-append g j xs ys)

-- No face has two entries.
abbrev pub Distinct {ℓ} : {V : Type ℓ} → List (ℕ × V) → Type ℓ
Distinct [] = Unit
Distinct ((k, v) ∷ m) = (lookup k m ≡ none) × Distinct m

-- What the scheduler relies on: valid queues with a level for each bucket, one entry for each face,
-- a face in the face table behind each entry, and no item without a face that its `switch` reads.
pub record IsServable {F : Type 0} (device : ℕ → Option ℕ) (queues : List (ℕ × TxQueue F))
    (bs : List TokenBucket) : Type 0 where
  pub valid : All (λ e. IsValid e.1 × (e.1.total_queues ≡ length bs)) queues
  pub distinct : Distinct queues
  pub devices : All (λ e. (rate : ℕ) × (device e.0 ≡ some rate)) queues
  pub sendable : All (λ e. AllSendable e.1) queues

-- What one face's turn does, seen from every face.
record Turn {F : Type 0} (face : ℕ) (tx : TxQueue F) (bs : List TokenBucket) (d : Drained F)
    : Type 0 where
  valid : IsValid d.tx
  same_length : length d.buckets ≡ length bs
  conserved : (j : ℕ) → contents j tx ≡ sent_items face j d.outputs ++ contents j d.tx
  own_face : (g j : ℕ) → g ≢ face → sent_items g j d.outputs ≡ []
  paid : (g j : ℕ) → count g j bs ≡ count g j d.buckets +ℤ pos (length (sent_items g j d.outputs))
  solvent : (g j : ℕ) → (sent_items g j d.outputs ≡ []) ⊎ (pos 0 ≤ℤ count g j d.buckets)

plus_none : (z : ℤ) → z ≡ z +ℤ pos 0
plus_none z = omega int_laws

Turn-of_Drains :
    {F : Type 0} (face n : ℕ) (tx : TxQueue F) (bs : List TokenBucket) (d : Drained F)
    → Drains face n tx bs d
    → Turn face tx bs d
Turn-of_Drains face n tx bs d r = record {
  valid = r.valid;
  same_length = r.same_length;
  conserved = r.conserved;
  own_face = r.own_face;
  paid = λ g j.
      ground (arith, r.paid j, r.own_face g j, r.others_unpaid g j, plus_none (count g j bs));
  solvent = λ g j. ground (arith, r.solvent j, r.own_face g j);
}

Turn-waiting :
    {F : Type 0} (face : ℕ) (tx : TxQueue F) (bs : List TokenBucket)
    → IsValid tx
    → Turn face tx bs (record { tx = tx; buckets = bs; waiting = true; outputs = [] })
unfolding sent_items
Turn-waiting face tx bs v = record {
  valid = v;
  same_length = refl;
  conserved = λ j. refl;
  own_face = λ g j h. refl;
  paid = λ g j. plus_none (count g j bs);
  solvent = λ g j. inl refl;
}

paid_both : (a b c : ℤ) (m n : ℕ) → a ≡ b +ℤ pos m → b ≡ c +ℤ pos n → a ≡ c +ℤ pos (m + n)
paid_both a b c m n h k =
    omega (int_laws, ap pos_part h, ap neg_part h, ap pos_part k, ap neg_part k)

solvent_still : (b c : ℤ) → b ≡ c +ℤ pos 0 → pos 0 ≤ℤ b → pos 0 ≤ℤ c
solvent_still b c h k = omega (int_laws, ap pos_part h, ap neg_part h)

pub IsServable-tail :
    {F : Type 0} (device : ℕ → Option ℕ) (face : ℕ) (tx : TxQueue F) (rest : List (ℕ × TxQueue F))
    (bs bs' : List TokenBucket)
    → length bs' ≡ length bs
    → IsServable device ((face, tx) ∷ rest) bs
    → IsServable device rest bs'
IsServable-tail device face tx rest bs bs' e h = record {
  valid = rw e h.valid.1;
  distinct = h.distinct.1;
  devices = h.devices.1;
  sendable = h.sendable.1;
}

module _ (f : Float) where
  open f use {Carrier}

  -- What a run over all faces does.
  pub record Sends (queues : List (ℕ × TxQueue Carrier)) (bs : List TokenBucket) (p : Pass f)
      : Type 0 where
    pub conserved :
        (face : ℕ) (tx : TxQueue Carrier)
        → lookup face queues ≡ some tx
        → (tx' : TxQueue Carrier) × (lookup face p.tx_queue ≡ some tx')
          × IsValid tx'
          × ((j : ℕ) → contents j tx ≡ sent_items face j p.outputs ++ contents j tx')
    pub absent : (face j : ℕ) → lookup face queues ≡ none → sent_items face j p.outputs ≡ []
    pub paid :
        (face j : ℕ)
        → count face j bs ≡ count face j p.buckets +ℤ pos (length (sent_items face j p.outputs))
    pub solvent :
        (face j : ℕ) → (sent_items face j p.outputs ≡ []) ⊎ (pos 0 ≤ℤ count face j p.buckets)

module _ (f : Float) (law : IsFloat f) where
  open f use {Carrier}

  turn :
      (n face : ℕ) (waiting : Bool) (tx : TxQueue Carrier) (bs : List TokenBucket)
      → IsValid tx
      → tx.total_queues ≡ length bs
      → AllSendable tx
      → (d : Drained Carrier) × (drain f n face waiting tx bs ≡ some d) × Turn face tx bs d
  turn n face true tx bs v e sendable =
      (_, drain-waiting f law n face tx bs v, Turn-waiting face tx bs v)
  turn n face false tx bs v e sendable =
      let (d, run, r) = drain-Drains f law n face tx bs v e sendable in
      (d, run, Turn-of_Drains face n tx bs d r)

  Sends-cons :
      (face : ℕ) (tx : TxQueue Carrier) (rest : List (ℕ × TxQueue Carrier)) (bs : List TokenBucket)
      (d : Drained Carrier) (p : Pass f)
      → lookup face rest ≡ none
      → Turn face tx bs d
      → Sends f rest d.buckets p
      → Sends f ((face, tx) ∷ rest) bs (record {
        tx_queue = (face, d.tx) ∷ p.tx_queue;
        buckets = p.buckets;
        outputs = d.outputs ++ p.outputs;
      })
  unfolding lookup
  Sends-cons face tx rest bs d p new t s = record {
    conserved = λ g tg at. kept g tg at (Bool-cases (face == g));
    absent = λ g j h. rw (sent_items-append g j) (ground (arith, t.own_face g j, s.absent g j));
    paid = λ g j. rw (sent_items-append g j) (
        ground (
          arith,
          t.paid g j,
          s.paid g j,
          length-append (sent_items g j d.outputs) (sent_items g j p.outputs),
          paid_both (count g j bs) (count g j d.buckets) (count g j p.buckets)
              (length (sent_items g j d.outputs)) (length (sent_items g j p.outputs)),
        ));
    solvent = λ g j. rw (sent_items-append g j) (
        ground (
          arith,
          t.solvent g j,
          s.solvent g j,
          s.paid g j,
          solvent_still (count g j d.buckets) (count g j p.buckets),
        ));
  }
    where
      kept :
          (g : ℕ) (tg : TxQueue Carrier)
          → lookup g ((face, tx) ∷ rest) ≡ some tg
          → ((face == g) ≡ true) ⊎ ((face == g) ≡ false)
          → (tx' : TxQueue Carrier) × (lookup g ((face, d.tx) ∷ p.tx_queue) ≡ some tx')
            × IsValid tx'
            × ((j : ℕ) → contents j tg ≡ sent_items g j (d.outputs ++ p.outputs) ++ contents j tx')
      kept g tg at (inl e) = (
        d.tx,
        rw e,
        t.valid,
        λ j.
            rw (sent_items-append g j)
              (ground (arith, s.absent g j, t.conserved j, append-nil (sent_items g j d.outputs))),
      )
      kept g tg at (inr e) =
          let (tx', found, v, c) = s.conserved g tg (ground arith) in
          (tx', rw e found, v, λ j. rw (sent_items-append g j, t.own_face g j (ground arith)) (c j))

  pass-Sends :
      (device : ℕ → Option ℕ) (queues : List (ℕ × TxQueue Carrier)) (bs : List TokenBucket)
      (waiting : Bool)
      → IsServable device queues bs
      → (p : Pass f) × (pass f device queues bs waiting ≡ some p) × Sends f queues bs p
  unfolding pass lookup sent_items
  pass-Sends device [] bs waiting h = (
    record { tx_queue = []; buckets = bs; outputs = [] },
    refl,
    record {
      conserved = λ g tx e. cc;
      absent = λ g j e. refl;
      paid = λ g j. plus_none (count g j bs);
      solvent = λ g j. inl refl;
    },
  )
  pass-Sends device ((face, tx) ∷ rest) bs waiting h =
      let (rate, known) = h.devices.0 in
      let (d, run, t) = turn (25 - rate) face waiting tx bs h.valid.0.0 h.valid.0.1 h.sendable.0 in
      let (p, runs, s) =
        pass-Sends device rest d.buckets d.waiting
          (IsServable-tail device face tx rest bs d.buckets t.same_length h) in
      (
        record {
          tx_queue = (face, d.tx) ∷ p.tx_queue;
          buckets = p.buckets;
          outputs = d.outputs ++ p.outputs;
        },
        rw (known, run, runs),
        Sends-cons face tx rest bs d p h.distinct.0 t s,
      )

  -- `prioritySend` makes no fault on servable queues, up to its calls of the strategy interface,
  -- which are outputs here, and the decoding of the blocks. No item is lost, doubled or reordered:
  -- what a level of a face held is what went out from it followed by what it still holds. Each item
  -- that goes out costs its face one token of its level's bucket, nothing else costs tokens, and no
  -- bucket that paid for an item is left with less than no token.
  pub priority_send-Sends :
      (device : ℕ → Option ℕ) (queues : List (ℕ × TxQueue Carrier)) (bs : List TokenBucket)
      → IsServable device queues bs
      → (p : Pass f) × (priority_send f device queues bs ≡ some p) × Sends f queues bs p
  unfolding priority_send
  priority_send-Sends device queues bs h = pass-Sends device queues bs false h
