-- ===== src/Qos/Send/Starvation.antt =====
-- `tokenwait` of `prioritySend` outlives the face that it was set for.
use mathlib.Core.Path.{subst}
use mathlib.Core.List.{append-nil, append_assoc}
use nfd_qo_s.Base.{
  ℕ, ◌-◌, ◌≡◌, refl, sym, ◌∙◌, inl, inr, Bool, true, false, Option, none, some, List, [], ◌∷◌, ◌++◌,
  Option-cases, ◌>>=◌, All,
}
use nfd_qo_s.Qos.Float.{Float, IsFloat}
use nfd_qo_s.Qos.TxQueue.{TxQueue}
use nfd_qo_s.Qos.Send.{Drained, drain, Pass, pass, priority_send}
use nfd_qo_s.Qos.Bucket.{TokenBucket}
use nfd_qo_s.Qos.TxQueue.Levels.{IsValid}
use nfd_qo_s.Qos.Send.Rounds.{drain-waiting}

module _ (f : Float) (law : IsFloat f) where
  open f use {Carrier}

  -- A queue that is valid, of a face in the face table.
  abbrev pub IsKnown : (ℕ → Option ℕ) → ℕ × TxQueue Carrier → Type 0
  IsKnown device e = IsValid e.1 × ((rate : ℕ) × (device e.0 ≡ some rate))

  -- `tokenwait` after the turns of the faces.
  abbrev pub waiting_after :
      (ℕ → Option ℕ) → List (ℕ × TxQueue Carrier) → List TokenBucket → Bool → Option Bool
  waiting_after device [] buckets waiting = some waiting
  waiting_after device ((face, tx) ∷ rest) buckets waiting = do
    rate ← device face
    d ← drain f (25 - rate) face waiting tx buckets
    waiting_after device rest d.buckets d.waiting

  pass-waiting :
      (device : ℕ → Option ℕ) (queues : List (ℕ × TxQueue Carrier)) (bs : List TokenBucket)
      → All (IsKnown device) queues
      → pass f device queues bs true
        ≡ some (record { tx_queue = queues; buckets = bs; outputs = [] })
  unfolding pass
  pass-waiting device [] bs h = refl
  pass-waiting device ((face, tx) ∷ rest) bs ((v, (rate, known)), h) =
      rw (known, drain-waiting f law (25 - rate) face tx bs v)
        (rw (pass-waiting device rest bs h) refl)

  -- What the turns of `front` leave to the turns behind them.
  pass-append :
      (device : ℕ → Option ℕ) (front rest : List (ℕ × TxQueue Carrier)) (bs : List TokenBucket)
      (waiting after : Bool) (p p' : Pass f)
      → pass f device front bs waiting ≡ some p
      → waiting_after device front bs waiting ≡ some after
      → pass f device rest p.buckets after ≡ some p'
      → pass f device (front ++ rest) bs waiting
        ≡ some (record {
          tx_queue = p.tx_queue ++ p'.tx_queue;
          buckets = p'.buckets;
          outputs = p.outputs ++ p'.outputs;
        })
  unfolding pass
  pass-append device [] rest bs waiting after p p' run flag later =
      let none_yet : Pass f = record { tx_queue = []; buckets = bs; outputs = [] } in
      let same : none_yet ≡ p = cc in
      let still : waiting ≡ after = cc in
      rw (still, ← same)
        (subst (λ q. pass f device rest q.buckets after ≡ some p') (sym same) later)
  pass-append device ((face, tx) ∷ front) rest bs waiting after p p' run flag later =
      let all = (face, tx) ∷ front in
      elim (Option-cases (device face)) [
        | inl unknown ↦ let e : pass f device all bs waiting ≡ none = rw unknown refl in cc
        | inr (rate, known) ↦ elim (Option-cases (drain f (25 - rate) face waiting tx bs)) [
          | inl fault ↦ let e : pass f device all bs waiting ≡ none = rw (known, fault) refl in cc
          | inr (d, drained) ↦ elim (Option-cases (pass f device front d.buckets d.waiting)) [
            | inl fault ↦
                let e : pass f device all bs waiting ≡ none = rw (known, drained, fault) refl in cc
            | inr (q, passed) ↦
                let q' : Pass f = record {
                  tx_queue = (face, d.tx) ∷ q.tx_queue;
                  buckets = q.buckets;
                  outputs = d.outputs ++ q.outputs;
                } in
                let e : pass f device all bs waiting ≡ some q' = rw (known, drained, passed) refl in
                let same : q' ≡ p = cc in
                let e' : waiting_after device all bs waiting
                    ≡ waiting_after device front d.buckets d.waiting =
                  rw (known, drained) refl in
                let rest_run =
                  pass-append device front rest d.buckets d.waiting after q p' passed
                    (sym e' ∙ flag)
                    (subst (λ r. pass f device rest r.buckets after ≡ some p') (sym same) later) in
                rw (known, drained, rest_run, ← same, append_assoc d.outputs q.outputs p'.outputs)
                  refl
          ]
        ]
      ]

  -- Once a face waits for tokens, wherever in the list it stands, `tokenwait` stays set: the faces
  -- behind it send nothing in this run, whatever packets and tokens they have, and the buckets note
  -- no need of theirs. `p` is what the faces before it do, and `d` is its own turn after theirs. The
  -- queues behind it are valid and of faces in the face table.
  pub priority_send_starves :
      (device : ℕ → Option ℕ) (front rest : List (ℕ × TxQueue Carrier)) (face rate : ℕ)
      (tx : TxQueue Carrier) (bs : List TokenBucket) (waiting : Bool) (p : Pass f)
      (d : Drained Carrier)
      → pass f device front bs false ≡ some p
      → waiting_after device front bs false ≡ some waiting
      → device face ≡ some rate
      → drain f (25 - rate) face waiting tx p.buckets ≡ some d
      → d.waiting ≡ true
      → All (IsKnown device) rest
      → priority_send f device (front ++ (face, tx) ∷ rest) bs
        ≡ some (record {
          tx_queue = p.tx_queue ++ (face, d.tx) ∷ rest;
          buckets = d.buckets;
          outputs = p.outputs ++ d.outputs;
        })
  unfolding priority_send pass
  priority_send_starves device front rest face rate tx bs waiting p d before flag known run w
        others =
      pass-append device front ((face, tx) ∷ rest) bs false waiting p
        (record { tx_queue = (face, d.tx) ∷ rest; buckets = d.buckets; outputs = d.outputs }) before
        flag
        (rw (known, run, w, pass-waiting device rest d.buckets others, append-nil d.outputs) refl)
