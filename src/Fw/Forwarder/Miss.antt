-- ===== src/Fw/Forwarder/Miss.antt =====
-- The timer of a PIT entry after a content store miss.
use nfd_qo_s.Base.{
  ℕ, suc, ◌+◌, ◌-◌, ◌*◌, ◌/◌, ◌^◌, ◌≤◌, ◌<◌, max, ◌≡◌, refl, ap, ◌≢◌, ◌⊎◌, inl, inr, some, List, [],
  ◌∷◌, arith, ◌>>=◌, All, Any, All-weaken, Any-weaken,
}
use nfd_qo_s.Fw.Forwarder.{
  from_now, last_expiring, with_entry, set_expiry_timer, forward_missed, on_content_store_miss,
}
use nfd_qo_s.Table.Records.{find_record, All-find_record}
use nfd_qo_s.Table.Pit.Entry.{IsValid, insert_or_update_in_record_lem}
use nfd_qo_s.Table.Pit.{lifetime_of, InRecord, in_face, insert_or_update_in_record}
use nfd_qo_s.Base.Int.{pos}
use nfd_qo_s.Fw.World.{Incoming, count_up, World, Env}

last_expiring_lem :
    (r : InRecord) (rs : List InRecord)
    → (at : ℕ) × (last_expiring (r ∷ rs) ≡ some at)
      × All (λ s. s.base.expiry ≤ at) (r ∷ rs)
      × Any (λ s. s.base.expiry ≡ at) (r ∷ rs)
unfolding last_expiring
last_expiring_lem r [] = (r.base.expiry, refl, (omega arith, tt), inl refl)
last_expiring_lem r (s ∷ rs) =
    let (at, run, before, is_last) = last_expiring_lem s rs in
    let all_before : All (λ s. s.base.expiry ≤ max r.base.expiry at) (s ∷ rs) =
      All-weaken (λ s. s.base.expiry ≤ at) (λ s. s.base.expiry ≤ max r.base.expiry at) (s ∷ rs)
        (λ s h. omega (arith, h)) before in
    (
      max r.base.expiry at,
      rw run refl,
      (omega arith, all_before),
      elim (total at r.base.expiry) [
        | inl less ↦ inl (omega (arith, less))
        | inr more ↦ inr (
            Any-weaken (λ s. s.base.expiry ≡ at) (λ s. s.base.expiry ≡ max r.base.expiry at)
              (s ∷ rs) (λ s h. omega (arith, h, more)) is_last)
      ],
    )
  where
    total : (a b : ℕ) → (a ≤ b) ⊎ (b ≤ a)
    total a b = ground arith

from_now_lem : (now at : ℕ) → now ≤ at → from_now now at ≡ pos ((at - now) / 10 ^ 6)
from_now_lem now at h = ground (arith, h)

truncated :
    (now at : ℕ)
    → now ≤ at
    → (now + (at - now) / 10 ^ 6 * 10 ^ 6 ≤ at) × (at < now + (at - now) / 10 ^ 6 * 10 ^ 6 + 10 ^ 6)
truncated now at h = (omega (arith, h), omega (arith, h))

latest_lem :
    (now face : ℕ) (r : InRecord) (rs : List InRecord)
    → find_record in_face face rs ≡ some r
    → now ≤ r.base.expiry
    → (last : ℕ) × (last_expiring rs ≡ some last)
      × (now ≤ last)
      × All (λ s. s.base.expiry ≤ last) rs
      × Any (λ s. s.base.expiry ≡ last) rs
unfolding find_record
latest_lem now face r [] h later = cc
latest_lem now face r (s ∷ ss) h later =
    let (last, run, before, is_last) = last_expiring_lem s ss in
    let at_r : r.base.expiry ≤ last =
      All-find_record in_face (λ s. s.base.expiry ≤ last) face (s ∷ ss) r before h in
    (last, run, omega arith, before, is_last)

module _ {S : Type 0} (env : Env S) where
  -- What a miss leaves for the last step: the in-record and a timer that ends with the last in-record to
  -- expire, rounded down to a millisecond.
  abbrev pub Timed : ℕ → ℕ → Incoming → World S → World S → Type 0
  Timed now in_face i w timed =
      (at : ℕ) × (timed.pending.expiry_timer ≡ some at)
      × (timed.pending.entry
          ≡ insert_or_update_in_record env.default_lifetime now in_face i.interest w.pending.entry)
      × All (λ r. r.base.expiry < at + 10 ^ 6) timed.pending.entry.in_records
      × Any (λ r. at ≤ r.base.expiry) timed.pending.entry.in_records

  -- On a PIT entry with one record for each face, `onContentStoreMiss` makes no fault of its own:
  -- it hands the Interest to the strategy, or to the next hop of its tag, after it has set the
  -- timer of the PIT entry to the expiry of the last in-record to expire, less than a millisecond
  -- early.
  pub on_content_store_miss_lem :
      (now in_face : ℕ) (i : Incoming) (w : World S)
      → IsValid w.pending.entry
      → (timed : World S) × (on_content_store_miss env now in_face i w
          ≡ forward_missed env now in_face i timed)
        × Timed now in_face i w timed
  unfolding on_content_store_miss
  on_content_store_miss_lem now in_face i w valid =
      let e =
        insert_or_update_in_record env.default_lifetime now in_face i.interest w.pending.entry in
      let other : suc in_face ≢ in_face = λ h. omega (arith, h) in
      let (here, _, _, _) =
        insert_or_update_in_record_lem env.default_lifetime now in_face i.interest w.pending.entry
          valid (suc in_face) other in
      let new : InRecord = record {
        base = record {
          face = in_face;
          last_nonce = i.interest.nonce;
          last_renewed = now;
          expiry = now + lifetime_of env.default_lifetime i.interest.lifetime;
        };
        interest = some i.interest;
      } in
      let (last, run, later, before, is_last) =
        latest_lem now in_face new e.in_records here (omega arith) in
      let ms = (last - now) / 10 ^ 6 in
      let (early, near) = truncated now last later in
      let missed = with_entry env e (record w {
        counters = record w.counters { n_cs_misses = count_up w.counters.n_cs_misses };
      }) in
      let timed = record missed {
        pending = record missed.pending { expiry_timer = some (now + ms * 10 ^ 6) };
      } in
      (
        timed,
        rw run (
            ap (λ d. set_expiry_timer env now d missed >>= forward_missed env now in_face i)
              (from_now_lem now last later)),
        (
          now + ms * 10 ^ 6,
          refl,
          refl,
          All-weaken (λ s. s.base.expiry ≤ last) (λ r. r.base.expiry < now + ms * 10 ^ 6 + 10 ^ 6)
              e.in_records (λ s h. omega (arith, h, near)) before,
          Any-weaken (λ s. s.base.expiry ≡ last) (λ r. now + ms * 10 ^ 6 ≤ r.base.expiry)
              e.in_records (λ s h. omega (arith, h, early)) is_last,
        ),
      )
