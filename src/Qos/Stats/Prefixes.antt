-- ===== src/Qos/Stats/Prefixes.antt =====
-- Which loss rates an expiry changes.
use nfd_qo_s.Base.{
  ℕ, ◌-◌, ◌≤◌, ◌≡◌, refl, inl, inr, true, false, List, [], ◌∷◌, arith, Bool-cases, length,
  length-take,
}
use nfd_qo_s.Qos.Stats.{
  Rates, interest_prefix, outcome_prefix, same_name, was_rejected, FaceStats, find_stats,
  change_stats, note_expired, before_expire_pending_interest,
}
use nfd_qo_s.Table.Pit.{OutRecord}

same_name-length : (ns ms : List ℕ) → same_name ns ms ≡ true → length ns ≡ length ms
unfolding same_name
same_name-length [] [] h = refl
same_name-length [] (m ∷ ms) h = cc
same_name-length (n ∷ ns) [] h = cc
same_name-length (n ∷ ns) (m ∷ ms) h = ground (arith, h, same_name-length ns ms)

same_name_trans :
    (ns ms ks : List ℕ) → same_name ns ms ≡ true → same_name ns ks ≡ true → same_name ms ks ≡ true
unfolding same_name
same_name_trans [] [] ks h g = g
same_name_trans [] (m ∷ ms) ks h g = cc
same_name_trans (n ∷ ns) [] ks h g = cc
same_name_trans (n ∷ ns) (m ∷ ms) [] h g = cc
same_name_trans (n ∷ ns) (m ∷ ms) (k ∷ ks) h g = ground (arith, h, g, same_name_trans ns ms ks)

module _ (rates : Rates) where
  find-change_other :
      (change : FaceStats rates → FaceStats rates) (key other : List ℕ)
      (stats : List (List ℕ × FaceStats rates))
      → same_name key other ≡ false
      → find_stats rates other (change_stats rates change key stats) ≡ find_stats rates other stats
  unfolding find_stats change_stats
  find-change_other change key other [] h = refl
  find-change_other change key other ((name, s) ∷ rest) h =
      let later = find-change_other change key other rest h in
      elim (Bool-cases (same_name name key)) [
        | inr apart ↦ elim (Bool-cases (same_name name other)) [
          | inl found ↦ rw (apart, found) refl
          | inr passed ↦ rw (apart, passed) later
        ]
        | inl here ↦ elim (Bool-cases (same_name name other)) [
          | inl found ↦ absurd (ground (arith, same_name_trans name key other here found, h))
          | inr passed ↦ rw (here, passed) refl
        ]
      ]

  -- The rates that `afterReceiveInterest` reads for a name of two components or more are not those
  -- that the expiry of an entry of that name changes: they stay as they are.
  pub before_expire-interest_prefix :
      (name : List ℕ) (out_records : List OutRecord) (rejected : List (List ℕ))
      (stats : List (List ℕ × FaceStats rates))
      → 2 ≤ length name
      → find_stats rates
          (interest_prefix name)
          (before_expire_pending_interest rates name out_records rejected stats).0
        ≡ find_stats rates (interest_prefix name) stats
  unfolding before_expire_pending_interest
  before_expire-interest_prefix name out_records rejected stats long =
      let key = outcome_prefix name in
      let other = interest_prefix name in
      let key_length : length key ≡ length name - 2 =
        ground (arith, long, length-take (length name - 2) name) in
      let other_length : length other ≡ length name - 1 =
        ground (arith, long, length-take (length name - 1) name) in
      let apart : same_name key other ≡ false = elim (Bool-cases (same_name key other)) [
        | inl same ↦
            absurd (omega (arith, same_name-length key other same, key_length, other_length, long))
        | inr differs ↦ differs
      ] in
      elim (Bool-cases (was_rejected name rejected).1) [
        | inl found ↦ rw found refl
        | inr pending ↦
            rw pending (find-change_other (note_expired rates out_records) key other stats apart)
      ]
