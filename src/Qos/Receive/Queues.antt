-- ===== src/Qos/Receive/Queues.antt =====
-- The map from faces to queues: what a look-up gives, and what an insertion keeps.
use mathlib.Core.Option
use mathlib.Core.Path.{subst}
use nfd_qo_s.Base.{
  ℕ, zero, suc, ◌≡◌, refl, sym, ap, ◌∙◌, inl, inr, true, Option, none, List, [], ◌∷◌, arith, ◌==◌,
  if◌then◌else◌, Bool-cases, Option-cases, length, get_elem?, All, All-weaken, All-get_elem?,
}
use nfd_qo_s.Qos.Float.{Float}
use nfd_qo_s.Qos.Send.Rounds.{AllSendable}
use nfd_qo_s.Qos.TxQueue.{TxQueue, initialize_from, initialize}
use nfd_qo_s.Base.Assoc.{lookup, insert, lookup-insert}
use nfd_qo_s.Qos.TxQueue.Levels.{contents, IsLevel, IsValid}
use nfd_qo_s.Qos.Receive.{queue_of}
use nfd_qo_s.Qos.Send.{has_faces}
use nfd_qo_s.Qos.Send.AllFaces.{Distinct, IsServable}
use nfd_qo_s.Qos.Bucket.{TokenBucket}

All-both {ℓ κ} :
    {A : Type ℓ} (P Q : A → Type κ) (xs : List A) → All P xs → All Q xs → All (λ x. P x × Q x) xs
All-both P Q [] p q = tt
All-both P Q (x ∷ xs) (p, ps) (q, qs) = ((p, q), All-both P Q xs ps qs)

module _ (f : Float) where
  open f use {Carrier}

  initialize-levels : (n : ℕ) → All IsLevel (initialize_from f n)
  unfolding initialize_from
  initialize-levels zero = tt
  initialize-levels (suc n) = ((omega arith, omega arith), initialize-levels n)

  initialize-length : (n : ℕ) → length (initialize_from f n) ≡ n
  unfolding initialize_from
  initialize-length zero = refl
  initialize-length (suc n) = ap suc (initialize-length n)

  initialize-IsValid : (n : ℕ) → IsValid (initialize f n) × ((initialize f n).total_queues ≡ n)
  unfolding initialize
  initialize-IsValid n =
      (record { counted = sym (initialize-length n); levels = initialize-levels n }, refl)

  initialize-idle : (n : ℕ) → All (λ q. q.queue ≡ []) (initialize_from f n)
  unfolding initialize_from
  initialize-idle zero = tt
  initialize-idle (suc n) = (refl, initialize-idle n)

  initialize-contents : (n j : ℕ) → contents j (initialize f n) ≡ []
  unfolding initialize contents
  initialize-contents n j =
      let qs = initialize_from f n in
      elim (Option-cases (get_elem? qs j)) [
        | inl outside ↦ rw (outside, contents) refl
        | inr (q, at) ↦
            rw (at, contents) (All-get_elem? (λ p. p.queue ≡ []) qs j q (initialize-idle n) at)
      ]

  initialize-AllSendable : (n : ℕ) → AllSendable (initialize f n)
  initialize-AllSendable n j =
      subst (All (λ item. has_faces item ≡ true)) (sym (initialize-contents n j)) tt

  abbrev pub Fits : ℕ → TxQueue Carrier → Type 0
  Fits levels t = IsValid t × (t.total_queues ≡ levels) × AllSendable t

  pub lookup-Fits :
      (levels face : ℕ) (m : List (ℕ × TxQueue Carrier))
      → All (λ e. Fits levels e.1) m
      → Fits levels (queue_of f levels face m)
  unfolding lookup
  lookup-Fits levels face [] h =
      let (v, total) = initialize-IsValid levels in (v, total, initialize-AllSendable levels)
  lookup-Fits levels face ((k, t) ∷ m) (h, hs) = elim (Bool-cases (k == face)) [
    | inl here ↦ rw here h
    | inr there ↦ rw there (lookup-Fits levels face m hs)
  ]

  pub IsServable-Fits :
      (levels : ℕ) (device : ℕ → Option ℕ) (m : List (ℕ × TxQueue Carrier)) (bs : List TokenBucket)
      → IsServable device m bs
      → length bs ≡ levels
      → All (λ e. Fits levels e.1) m
  IsServable-Fits levels device m bs serve buckets =
      All-weaken (λ e. (IsValid e.1 × (e.1.total_queues ≡ length bs)) × AllSendable e.1)
        (λ e. Fits levels e.1) m (λ e g. (g.0.0, g.0.1 ∙ buckets, g.1))
        (All-both _ _ m serve.valid serve.sendable)

  pub All-insert :
      (P : ℕ × TxQueue Carrier → Type 0) (face : ℕ) (t : TxQueue Carrier)
      (m : List (ℕ × TxQueue Carrier))
      → P (face, t)
      → All P m
      → All P (insert face t m)
  unfolding insert
  All-insert P face t [] p h = (p, tt)
  All-insert P face t ((k, u) ∷ m) p (h, hs) = elim (Bool-cases (k == face)) [
    | inl here ↦ rw here (p, hs)
    | inr there ↦ rw there (h, All-insert P face t m p hs)
  ]

  pub Distinct-insert :
      (face : ℕ) (t : TxQueue Carrier) (m : List (ℕ × TxQueue Carrier))
      → Distinct m
      → Distinct (insert face t m)
  unfolding insert lookup
  Distinct-insert face t [] d = (refl, tt)
  Distinct-insert face t ((k, u) ∷ m) (new, d) = elim (Bool-cases (k == face)) [
    | inl here ↦
        let same : k ≡ face = ground (arith, here) in
        rw here (subst (λ j. lookup j m ≡ none) same new, d)
    | inr there ↦
        rw there (ground (arith, lookup-insert m face k t, there, new), Distinct-insert face t m d)
  ]

  pub queue_of-insert :
      (levels k face : ℕ) (t : TxQueue Carrier) (m : List (ℕ × TxQueue Carrier))
      → queue_of f levels k (insert face t m) ≡ (if face == k then t else queue_of f levels k m)
  queue_of-insert levels k face t m = elim (Bool-cases (face == k)) [
    | inl here ↦
        ap (λ o. Option.get_or o (initialize f levels)) (lookup-insert m face k t) ∙ rw here refl
    | inr there ↦
        ap (λ o. Option.get_or o (initialize f levels)) (lookup-insert m face k t) ∙ rw there refl
  ]
