-- ===== src/Qos/Send/Drain.antt =====
-- The inner loop of `prioritySend`, for one face.
use nfd_qo_s.Base.{
  ℕ, zero, suc, ◌+◌, ◌≤◌, ◌<◌, ◌≡◌, refl, ap, ◌∙◌, ◌≢◌, ◌⊎◌, inl, inr, Bool, true, false, ◌&&◌,
  none, some, List, [], ◌∷◌, ◌++◌, map, arith, ◌==◌, if◌then◌else◌, Option-cases, length, get_elem?,
  set, length-set, get_elem?-set_self, get_elem?-set_ne, lt_of_get_elem?, get_elem?_of_lt,
  get_elem?-map, get_elem?-map-none, List-cases,
}
use nfd_qo_s.Base.Int.{ℤ, pos, pos_part, neg_part, ◌+ℤ◌, ◌-ℤ◌, ◌≤ℤ◌, int_laws}
use nfd_qo_s.Base.Assoc.{insert, lookup_or-insert}
use nfd_qo_s.Qos.Queue.{QueueItem, is_empty}
use nfd_qo_s.Qos.Bucket.{TokenBucket, tokens_at, consume_token}
use nfd_qo_s.Qos.TxQueue.{TxQueue, token_req}
use nfd_qo_s.Qos.TxQueue.Levels.{contents, IsValid, backlog}
use nfd_qo_s.Qos.Send.{
  Action, Output, left_capacity, sent, Drained, set_needs, spend, signals, sent_items,
}
use nfd_qo_s.Qos.TxQueue.Choice.{ready}

-- The tokens of a face in the bucket of a level.
unfoldable pub count : ℕ → ℕ → List TokenBucket → ℤ
count face level buckets = elim (get_elem? buckets level) [
  | none ↦ pos 0
  | some b ↦ tokens_at face b
]

pub sent_count : List Output → ℕ
sent_count [] = 0
sent_count (left_capacity l ∷ os) = sent_count os
sent_count (sent g l a item ∷ os) = suc (sent_count os)

pub tokens_at-spend :
    (face k : ℕ) (b : TokenBucket)
    → tokens_at k (spend face b).0
      ≡ (if face == k then tokens_at face b -ℤ pos 1 else tokens_at k b)
unfolding spend tokens_at consume_token
tokens_at-spend face k b = lookup_or-insert b.capacity face k (tokens_at face b -ℤ pos 1) b.tokens

count-set :
    (k level j : ℕ) (b : TokenBucket) (bs : List TokenBucket)
    → level < length bs
    → count k j (set bs level b) ≡ (if level == j then tokens_at k b else count k j bs)
unfolding count
count-set k level j b bs h =
    ground (arith, get_elem?-set_self bs level b h, get_elem?-set_ne bs level j b)

module _ {F : Type 0} where
  token_req-total :
      (i : ℕ) (tx : TxQueue F) → i < length tx.priority_queues → (r : ℕ) × (token_req i tx ≡ some r)
  unfolding token_req
  token_req-total i tx h =
      let (q, at) = get_elem?_of_lt tx.priority_queues i h in (if is_empty q then 0 else 1, rw at)

  pub record Noted (i face : ℕ) (tx : TxQueue F) (bs : List TokenBucket) : Type 0 where
    pub buckets : List TokenBucket
    pub run : set_needs i face tx bs ≡ some buckets
    pub same_length : length buckets ≡ length bs
    pub same_count : (k j : ℕ) → count k j buckets ≡ count k j bs

  pub set_needs-Noted :
      (i face : ℕ) (tx : TxQueue F) (bs : List TokenBucket)
      → i + length bs ≤ length tx.priority_queues
      → Noted i face tx bs
  unfolding set_needs count tokens_at
  set_needs-Noted i face tx [] h = record {
    buckets = [];
    run = refl;
    same_length = refl;
    same_count = λ k j. refl;
  }
  set_needs-Noted i face tx (b ∷ bs) h =
      let (r, req) = token_req-total i tx (omega arith) in
      let n = set_needs-Noted (i + 1) face tx bs (omega arith) in
      record {
        buckets = record b { need = insert face (pos r) b.need } ∷ n.buckets;
        run = rw (req, n.run);
        same_length = ap suc n.same_length;
        same_count = λ k. elim [ zero ↦ refl | suc j ↦ n.same_count k j ];
      }

  -- A ready level holds an item, and its bucket has a token for the face.
  pub ready-item :
      (face level : ℕ) (tx : TxQueue F) (bs : List TokenBucket)
      → ready tx (map (tokens_at face) bs) level ≡ true
      → (item : QueueItem) × (rest : List QueueItem) × (b : TokenBucket) × (contents level tx
          ≡ item ∷ rest)
        × (get_elem? bs level ≡ some b)
        × (pos 1 ≤ℤ tokens_at face b)
  unfolding ready
  ready-item face level tx bs h = elim (List-cases (contents level tx)) [
    | inl e ↦ absurd (ground arith)
    | inr (item, rest, e) ↦ elim (Option-cases (get_elem? bs level)) [
      | inl none_left ↦
          absurd (ground (arith, get_elem?-map-none (tokens_at face) bs level none_left))
      | inr (b, at) ↦
          (item, rest, b, e, at, ground (arith, get_elem?-map (tokens_at face) bs level b at))
    ]
  ]

  -- The level holds nothing, or its bucket has no token for the face.
  abbrev pub IsBlocked : ℕ → ℕ → TxQueue F → List TokenBucket → Type 0
  IsBlocked face level tx bs = (contents level tx ≡ []) ⊎ (¬ (pos 1 ≤ℤ count face level bs))

  pub IsBlocked-of_ready :
      (face level : ℕ) (tx : TxQueue F) (bs : List TokenBucket)
      → ready tx (map (tokens_at face) bs) level ≡ false
      → IsBlocked face level tx bs
  unfolding ready count
  IsBlocked-of_ready face level tx bs h = elim (List-cases (contents level tx)) [
    | inl e ↦ inl e
    | inr (item, rest, e) ↦ elim (Option-cases (get_elem? bs level)) [
      | inl none_left ↦ inr (rw (none_left, count) (omega arith))
      | inr (b, at) ↦ inr (ground (arith, get_elem?-map (tokens_at face) bs level b at))
    ]
  ]

  -- What one run of the inner loop does.
  pub record Drains (face n : ℕ) (tx : TxQueue F) (buckets : List TokenBucket) (d : Drained F)
      : Type 0 where
    pub valid : IsValid d.tx
    pub same_total : d.tx.total_queues ≡ tx.total_queues
    pub same_length : length d.buckets ≡ length buckets
    pub conserved : (j : ℕ) → contents j tx ≡ sent_items face j d.outputs ++ contents j d.tx
    pub own_face : (g j : ℕ) → g ≢ face → sent_items g j d.outputs ≡ []
    pub paid :
        (j : ℕ)
        → count face j buckets
          ≡ count face j d.buckets +ℤ pos (length (sent_items face j d.outputs))
    pub others_unpaid : (k j : ℕ) → k ≢ face → count k j d.buckets ≡ count k j buckets
    pub solvent : (j : ℕ) → (sent_items face j d.outputs ≡ []) ⊎ (pos 0 ≤ℤ count face j d.buckets)
    pub bounded : sent_count d.outputs ≤ n
    pub stopped :
        (d.waiting ≡ false → (sent_count d.outputs ≡ n) ⊎ (backlog d.tx.priority_queues ≡ 0))
        × (d.waiting ≡ true → (j : ℕ) → j < tx.total_queues → IsBlocked face j d.tx d.buckets)

  -- Nothing goes out.
  pub quiet :
      (face n : ℕ) (tx : TxQueue F) (buckets buckets' : List TokenBucket) (waiting : Bool)
      → IsValid tx
      → length buckets' ≡ length buckets
      → ((k j : ℕ) → count k j buckets' ≡ count k j buckets)
      → (waiting ≡ false → (0 ≡ n) ⊎ (backlog tx.priority_queues ≡ 0))
      → (waiting ≡ true → (j : ℕ) → j < tx.total_queues → IsBlocked face j tx buckets')
      → Drains face n tx buckets
          (record { tx = tx; buckets = buckets'; waiting = waiting; outputs = [] })
  unfolding sent_items sent_count
  quiet face n tx buckets buckets' waiting v l c a b = record {
    valid = v;
    same_total = refl;
    same_length = l;
    conserved = λ j. refl;
    own_face = λ g j h. refl;
    paid = λ j. rw (c face j) (omega int_laws);
    others_unpaid = λ k j h. c k j;
    solvent = λ j. inl refl;
    bounded = omega arith;
    stopped = (a, b);
  }

sent_items-signals :
    (g j level : ℕ) (left : Bool) (os : List Output)
    → sent_items g j (signals level left ++ os) ≡ sent_items g j os
unfolding sent_items signals
sent_items-signals g j level true os = refl
sent_items-signals g j level false os = refl

sent_count-signals :
    (level : ℕ) (left : Bool) (os : List Output)
    → sent_count (signals level left ++ os) ≡ sent_count os
unfolding sent_count signals
sent_count-signals level true os = refl
sent_count-signals level false os = refl

sent_items-sent :
    (g j face level : ℕ) (left : Bool) (a : Action) (item : QueueItem) (os : List Output)
    → sent_items g j (signals level left ++ sent face level a item ∷ os)
      ≡ (if face == g && level == j then item ∷ sent_items g j os else sent_items g j os)
unfolding sent_items
sent_items-sent g j face level left a item os =
    sent_items-signals g j level left (sent face level a item ∷ os)

paid_more : (c c' : ℤ) (n : ℕ) → c -ℤ pos 1 ≡ c' +ℤ pos n → c ≡ c' +ℤ pos (suc n)
paid_more c c' n h = omega (int_laws, ap pos_part h, ap neg_part h)

solvent_after : (c c' : ℤ) → pos 1 ≤ℤ c → c -ℤ pos 1 ≡ c' +ℤ pos 0 → pos 0 ≤ℤ c'
solvent_after c c' f h = omega (int_laws, ap pos_part h, ap neg_part h)

module _ {F : Type 0} (face n level : ℕ) (left : Bool) (a : Action) (item : QueueItem)
    (rest : List QueueItem) (tx tx' : TxQueue F) (bs : List TokenBucket) (b : TokenBucket)
    (d : Drained F)
    (moved : (j : ℕ) → contents j tx' ≡ (if level == j then rest else contents j tx))
    (front : contents level tx ≡ item ∷ rest) (at : get_elem? bs level ≡ some b)
    (funded : pos 1 ≤ℤ tokens_at face b) (same : tx'.total_queues ≡ tx.total_queues)
    (r : Drains face n tx' (set bs level (spend face b).0) d) where
  abbrev pub outputs' : List Output
  outputs' = signals level left ++ sent face level a item ∷ d.outputs

  step-conserved : (j : ℕ) → contents j tx ≡ sent_items face j outputs' ++ contents j d.tx
  step-conserved j =
      rw (sent_items-sent face j face level left a item d.outputs)
        (ground (arith, moved j, r.conserved j))

  count-spent :
      (k j : ℕ)
      → count k j (set bs level (spend face b).0)
        ≡ (if level == j && face == k then count k j bs -ℤ pos 1 else count k j bs)
  unfolding count
  count-spent k j =
      count-set k level j (spend face b).0 bs (lt_of_get_elem? bs level b at)
      ∙ ground (arith, tokens_at-spend face k b)

  count-funded : pos 1 ≤ℤ count face level bs
  unfolding count
  count-funded = rw (at, count) funded

  step-paid :
      (j : ℕ)
      → count face j bs ≡ count face j d.buckets +ℤ pos (length (sent_items face j outputs'))
  step-paid j = rw (sent_items-sent face j face level left a item d.outputs) (
      ground (
        arith,
        r.paid j,
        count-spent face j,
        paid_more (count face j bs) (count face j d.buckets) (length (sent_items face j d.outputs)),
      ))

  step-solvent : (j : ℕ) → (sent_items face j outputs' ≡ []) ⊎ (pos 0 ≤ℤ count face j d.buckets)
  step-solvent j = rw (sent_items-sent face j face level left a item d.outputs) (
      ground (
        arith,
        r.solvent j,
        r.paid j,
        count-spent face j,
        count-funded,
        solvent_after (count face j bs) (count face j d.buckets),
      ))

  pub step-Drains : Drains face (suc n) tx bs (record d { outputs = outputs' })
  unfolding sent_count
  step-Drains = record {
    valid = r.valid;
    same_total = r.same_total ∙ same;
    same_length = r.same_length ∙ length-set bs level (spend face b).0;
    conserved = step-conserved;
    own_face = λ g j h.
        rw (sent_items-sent g j face level left a item d.outputs) (ground (arith, r.own_face g j));
    paid = step-paid;
    others_unpaid = λ k j h. r.others_unpaid k j h ∙ count-spent k j ∙ ground arith;
    solvent = step-solvent;
    bounded = rw (sent_count-signals level left) (omega (arith, r.bounded));
    stopped = (
      λ e. rw (sent_count-signals level left) (ground (arith, r.stopped.0 e)),
      λ e j h. r.stopped.1 e j (omega (arith, same)),
    );
  }
