-- ===== src/Fw/ProcessNack/Answer.antt =====
-- Whom a Nack is passed on to.
use mathlib.Core.Path.{subst, subst₂}
use nfd_qo_s.Base.{
  ℕ, ◌+◌, ◌<◌, ◌≡◌, refl, sym, ◌≢◌, ◌⊎◌, inl, inr, Option, none, some, List, [], ◌∷◌, arith, ◌==◌,
  Bool-cases, Option-cases, All, Any, All-weaken, Any-weaken,
}
use nfd_qo_s.Table.Pit.{OutRecord, PitEntry, get_in_record}
use nfd_qo_s.Fw.ProcessNack.{
  Severity, Scan, scan_record, scan_records, NackAnswer, nack_to, waiting, nack_to_all, answer_of,
  process_nack,
}

abbrev IsNacked : OutRecord → Type 0
IsNacked o = o.incoming_nack ≢ none

-- How the count and the last face come about: no record waits, or some do, the last of them on `face`.
abbrev Counted : List OutRecord → ℕ → ℕ → Option ℕ → Option ℕ → Type 0
Counted os before n old last =
    ((n ≡ before) × (last ≡ old) × All IsNacked os)
    ⊎ ((face : ℕ) × (last ≡ some face)
        × (before < n)
        × Any (λ o. (o.incoming_nack ≡ none) × (o.base.face ≡ face)) os
        × ((before + 1 < n) ⊎ All (λ o. IsNacked o ⊎ (o.base.face ≡ face)) os))

Counted-waiting :
    (o : OutRecord) (os : List OutRecord) (before n : ℕ) (old last : Option ℕ)
    → o.incoming_nack ≡ none
    → Counted os (before + 1) n (some o.base.face) last
    → Counted (o ∷ os) before n old last
Counted-waiting o os before n old last free (inl (same, at, nacked)) = inr (
  o.base.face,
  at,
  omega arith,
  inl (free, refl),
  inr (inr refl, All-weaken _ _ os (λ p h. inl h) nacked),
)
Counted-waiting o os before n old last free (inr (face, at, more, some_face, _)) =
    inr (face, at, omega arith, inr some_face, inl (omega arith))

Counted-nacked :
    (o : OutRecord) (os : List OutRecord) (before n : ℕ) (old last : Option ℕ)
    → IsNacked o
    → Counted os before n old last
    → Counted (o ∷ os) before n old last
Counted-nacked o os before n old last h (inl (same, at, nacked)) = inl (same, at, (h, nacked))
Counted-nacked o os before n old last h (inr (face, at, more, some_face, inl two)) =
    inr (face, at, more, inr some_face, inl two)
Counted-nacked o os before n old last h (inr (face, at, more, some_face, inr one)) =
    inr (face, at, more, inr some_face, inr (inl h, one))

scan_nacked :
    (s : Severity) (o : OutRecord) (c : Scan)
    → IsNacked o
    → ((scan_record s o c).not_nacked ≡ c.not_nacked)
      × ((scan_record s o c).last_face ≡ c.last_face)
scan_nacked s o c h = elim (Option-cases o.incoming_nack) [
  | inl free ↦ absurd (h free)
  | inr (n, nacked) ↦ ground arith
]

scan_lem :
    (s : Severity) (os : List OutRecord) (c : Scan)
    → let c' = scan_records s os c in Counted os c.not_nacked c'.not_nacked c.last_face c'.last_face
unfolding scan_records
scan_lem s [] c = inl (refl, refl, tt)
scan_lem s (o ∷ os) c = elim (Option-cases o.incoming_nack) [
  | inl free ↦
      let c₁ : Scan = record c { not_nacked = c.not_nacked + 1; last_face = some o.base.face } in
      let same : scan_record s o c ≡ c₁ = ground arith in
      subst
        (λ d.
          Counted (o ∷ os) c.not_nacked (scan_records s os d).not_nacked c.last_face
            (scan_records s os d).last_face)
        (sym same)
        (Counted-waiting o os c.not_nacked (scan_records s os c₁).not_nacked c.last_face
          (scan_records s os c₁).last_face free (scan_lem s os c₁))
  | inr (n, nacked) ↦
      let is_nacked : IsNacked o = λ e. cc in
      let (count, last) = scan_nacked s o c is_nacked in
      let c₁ = scan_record s o c in
      let rest = scan_lem s os c₁ in
      Counted-nacked o os c.not_nacked (scan_records s os c₁).not_nacked c.last_face
        (scan_records s os c₁).last_face is_nacked
        (subst₂
          (λ k l. Counted os k (scan_records s os c₁).not_nacked l (scan_records s os c₁).last_face)
          count last rest)
]

-- What an answer says of the out-records.
abbrev pub Answers : PitEntry → NackAnswer → Type 0
Answers e (nack_to face reason) =
    Any (λ o. (o.incoming_nack ≡ none) × (o.base.face ≡ face)) e.out_records
    × All (λ o. (o.incoming_nack ≢ none) ⊎ (o.base.face ≡ face)) e.out_records
    × (get_in_record face e ≢ none)
Answers e waiting = Any (λ o. o.incoming_nack ≡ none) e.out_records
Answers e (nack_to_all reason) = All (λ o. o.incoming_nack ≢ none) e.out_records

answer_of_lem :
    (e : PitEntry) (c : Scan)
    → Counted e.out_records 0 c.not_nacked none c.last_face
    → (a : NackAnswer) × (answer_of e c ≡ a) × Answers e a
unfolding answer_of
answer_of_lem e c (inl (zero_left, at, nacked)) = (nack_to_all c.reason, ground arith, nacked)
answer_of_lem e c (inr (face, at, more, some_face, rest)) =
    let waits = Any-weaken _ _ e.out_records (λ o p. p.0) some_face in
    elim (Bool-cases (c.not_nacked == 1)) [
      | inr several ↦ (waiting, ground arith, waits)
      | inl single ↦ elim (Option-cases (get_in_record face e)) [
        | inl upstream ↦ (waiting, ground arith, waits)
        | inr (r, downstream) ↦
            let the_face : All (λ o. (o.incoming_nack ≢ none) ⊎ (o.base.face ≡ face))
                e.out_records =
              elim rest [ inl two ↦ absurd (ground arith) | inr every ↦ every ] in
            (nack_to face c.reason, ground arith, (some_face, the_face, λ gone. cc))
      ]
    ]

-- `processNack` passes a Nack on to all downstreams only when every out-record is nacked; it passes
-- it on to a single face only when the out-records of that face are all that wait for an answer and
-- the face is a downstream too; it does nothing only when some out-record waits for an answer.
pub process_nack_lem :
    (s : Severity) (e : PitEntry) → (a : NackAnswer) × (process_nack s e ≡ a) × Answers e a
unfolding process_nack
process_nack_lem s e = answer_of_lem e _ (scan_lem s e.out_records _)
