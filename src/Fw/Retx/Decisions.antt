-- ===== src/Fw/Retx/Decisions.antt =====
-- When a retransmission is suppressed, and how the interval grows.
use mathlib.Core.Path.{subst}
use nfd_qo_s.Base.{
  ℕ, ◌+◌, ◌-◌, ◌*◌, ◌^◌, ◌≤◌, ◌<◌, ◌≡◌, refl, ◌≢◌, ◌⊎◌, inl, inr, true, none, some, arith, ltb,
  if◌then◌else◌, Bool-cases, All, Any, all, All-weaken, Any-weaken,
}
use nfd_qo_s.Fw.Retx.{
  RetxSuppressionResult, new, forward, suppress, decide_fixed, RetxSuppressionExponential,
  interval_of, next_interval, decide_per_pit_entry,
}
use nfd_qo_s.Table.Pit.{PitEntry}
use nfd_qo_s.Fw.Algorithm.{has_pending_out_records}
use nfd_qo_s.Fw.Algorithm.Answers.{has_pending_none, pending_last}

-- The decision for a pending entry: the last renewal stands for all of the out-records. The interval
-- is in nanoseconds.
abbrev Timed : RetxSuppressionResult → ℕ → ℕ → PitEntry → Type 0
Timed r interval now e =
    ((r ≡ suppress) × Any (λ o. now < o.base.last_renewed + interval) e.out_records)
    ⊎ ((r ≡ forward) × All (λ o. o.base.last_renewed + interval ≤ now) e.out_records)

abbrev timed : ℕ → ℕ → ℕ → RetxSuppressionResult
timed interval now last = if ltb (now - last) interval then suppress else forward

timed_lem :
    (interval now last : ℕ) (e : PitEntry)
    → 0 < interval
    → All (λ o. o.base.last_renewed ≤ last) e.out_records
    → Any (λ o. o.base.last_renewed ≡ last) e.out_records
    → Timed (timed interval now last) interval now e
timed_lem interval now last e pos all reached = elim (Bool-cases (ltb (now - last) interval)) [
  | inl soon ↦ inl (rw soon refl, Any-weaken _ _ e.out_records (λ o same. ground arith) reached)
  | inr late ↦ inr (rw late refl, All-weaken _ _ e.out_records (λ o h. ground arith) all)
]

-- `RetxSuppressionFixed::decidePerPitEntry` makes no fault. An Interest is new if every out-record is
-- expired or nacked; else it is suppressed if an out-record was renewed within the interval, and
-- forwarded if none was.
pub decide_fixed_lem :
    (interval asked now : ℕ) (e : PitEntry)
    → 0 < interval
    → (r : RetxSuppressionResult) × (decide_fixed interval asked now e ≡ some r)
      × (((r ≡ new) × All (λ o. (o.base.expiry < asked) ⊎ (o.incoming_nack ≢ none)) e.out_records)
          ⊎ ((has_pending_out_records asked e ≡ true) × Timed r (interval * 10 ^ 6) now e))
unfolding decide_fixed
decide_fixed_lem interval asked now e pos = elim (Bool-cases (has_pending_out_records asked e)) [
  | inl pending ↦
      let (last, run, all, reached) = pending_last asked e pending in
      (
        timed (interval * 10 ^ 6) now last,
        rw (pending, run),
        inr (pending, timed_lem (interval * 10 ^ 6) now last e (omega arith) all reached),
      )
  | inr idle ↦ (new, rw idle, inl (refl, (has_pending_none asked e).0 idle))
]

-- An entry's interval, if it has one, is between the initial interval and the greatest one.
abbrev pub IsBetween : RetxSuppressionExponential → PitEntry → Type 0
IsBetween s e =
    (s.initial_interval ≤ interval_of s e.suppression_interval)
    × (interval_of s e.suppression_interval ≤ s.max_interval)

-- `RetxSuppressionExponential::decidePerPitEntry` makes no fault, decides as the fixed one does with
-- the entry's interval, changes nothing but that interval, keeps it between the initial interval and
-- the greatest one, and lets it grow exactly when it forwards. This is for a multiplier of one at
-- least.
pub decide_per_pit_entry_lem :
    (s : RetxSuppressionExponential) (asked now : ℕ) (e : PitEntry)
    → 0 < s.initial_interval
    → ((n : ℕ) → n ≤ s.max_interval → n ≤ s.grow n)
    → IsBetween s e
    → let old = interval_of s e.suppression_interval in
      (r : RetxSuppressionResult) × (e' : PitEntry) × (decide_per_pit_entry s asked now e
        ≡ some (r, e'))
      × (((r ≡ new)
            × (e' ≡ e)
            × All (λ o. (o.base.expiry < asked) ⊎ (o.incoming_nack ≢ none)) e.out_records)
          ⊎ ((has_pending_out_records asked e ≡ true) × Timed r (old * 10 ^ 3) now e))
      × IsBetween s e'
      × (e'.out_records ≡ e.out_records)
      × (e'.in_records ≡ e.in_records)
      × (interval_of s e'.suppression_interval
          ≡ elim r [ new ↦ old | suppress ↦ old | forward ↦ next_interval s old ])
unfolding decide_per_pit_entry
decide_per_pit_entry_lem s asked now e pos grows between =
    let old : ℕ = interval_of s e.suppression_interval in
    let more = grows old between.1 in
    elim (Bool-cases (has_pending_out_records asked e)) [
      | inl pending ↦
          let (last, run, all, reached) = pending_last asked e pending in
          let why = timed_lem (old * 10 ^ 3) now last e (omega arith) all reached in
          elim (Bool-cases (ltb (now - last) (old * 10 ^ 3))) [
            | inl soon ↦ (
              suppress,
              record e { suppression_interval = some old },
              rw (pending, run, soon),
              inr (pending, subst (λ r. Timed r (old * 10 ^ 3) now e) (rw soon refl) why),
              between,
              refl,
              refl,
              refl,
            )
            | inr late ↦ (
              forward,
              record e { suppression_interval = some (next_interval s old) },
              rw (pending, run, late),
              inr (pending, subst (λ r. Timed r (old * 10 ^ 3) now e) (rw late refl) why),
              omega arith,
              refl,
              refl,
              refl,
            )
          ]
      | inr idle ↦ (
        new,
        e,
        rw idle,
        inl (refl, refl, (has_pending_none asked e).0 idle),
        between,
        refl,
        refl,
        refl,
      )
    ]
