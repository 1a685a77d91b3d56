-- ===== src/Fw/BestRoute/Choice.antt =====
-- Where an Interest is sent.
use mathlib.Core.Path.{subst}
use nfd_qo_s.Base.{
  ℕ, ◌+◌, ◌*◌, ◌^◌, ◌≤◌, ◌<◌, ◌≡◌, refl, ap, ◌∙◌, ◌≢◌, ◌↔◌, ◌⊎◌, inl, inr, Bool, true, false,
  Option, none, some, List, [], ◌∷◌, arith, ltb, Bool-cases, Option-cases, All, Any, All-weaken,
  Any-weaken,
}
use nfd_qo_s.Fw.BestRoute.{
  Arrival, is_eligible, is_unused, find_hop, earlier, earliest_from, Outcome, suppressed, sent_to,
  no_route, no_next_hop, send_interest, forward_interest, after_receive_interest,
}
use nfd_qo_s.Table.Pit.{OutRecord, PitEntry, get_out_record}
use nfd_qo_s.Table.Fib.{NextHop}
use nfd_qo_s.Fw.Algorithm.{would_violate_scope, has_pending_out_records}
use nfd_qo_s.Fw.Retx.{
  RetxSuppressionResult, new, forward, suppress, RetxSuppressionExponential, interval_of,
}
use nfd_qo_s.Fw.Retx.Decisions.{IsBetween, decide_per_pit_entry_lem}

-- The next hop's face is not the one that the Interest came from, unless it is ad hoc, and the scope of
-- the name allows it.
abbrev pub IsAllowed : Arrival → NextHop → Type 0
IsAllowed a h =
    ((h.face ≢ a.in_face) ⊎ ((a.faces h.face).is_ad_hoc ≡ true))
    × (would_violate_scope a.prefixes (a.faces a.in_face).is_local a.interest
          (a.faces h.face).is_local
        ≡ false)

eligible_iff :
    (a : Arrival) (e : PitEntry) (h : NextHop) → (is_eligible a e h ≡ true) ↔ IsAllowed a h
unfolding is_eligible
eligible_iff a e h = ground arith

find_hop_lem :
    (test : NextHop → Bool) (hs : List NextHop) (h : NextHop)
    → find_hop test hs ≡ some h
    → Any (λ k. (k ≡ h) × (test k ≡ true)) hs
unfolding find_hop
find_hop_lem test [] h e = cc
find_hop_lem test (k ∷ hs) h e = elim (Bool-cases (test k)) [
  | inl good ↦ inl (ground (arith, good), good)
  | inr bad ↦ inr (find_hop_lem test hs h (ground (arith, bad)))
]

find_hop-none :
    (test : NextHop → Bool) (hs : List NextHop)
    → find_hop test hs ≡ none
    → All (λ k. test k ≡ false) hs
unfolding find_hop
find_hop-none test [] e = tt
find_hop-none test (k ∷ hs) e = elim (Bool-cases (test k)) [
  | inl good ↦ absurd (ground (arith, good))
  | inr bad ↦ (bad, find_hop-none test hs (ground (arith, bad)))
]

-- A next hop that is eligible but not unused has an out-record.
used_record :
    (a : Arrival) (e : PitEntry) (now : ℕ) (h : NextHop)
    → is_eligible a e h ≡ true
    → is_unused a e now h ≡ false
    → (r : OutRecord) × (get_out_record h.face e ≡ some r)
unfolding is_unused
used_record a e now h good used = elim (Option-cases (get_out_record h.face e)) [
  | inl missing ↦ absurd (ground arith)
  | inr there ↦ there
]

earlier-cases :
    (found : Option (NextHop × ℕ)) (h : NextHop) (at : ℕ)
    → (earlier found h at ≡ some (h, at)) ⊎ ((earlier found h at ≡ found) × (found ≢ none))
earlier-cases none h at = inl refl
earlier-cases (some (k, best)) h at = elim (Bool-cases (ltb at best)) [
  | inl sooner ↦ inl (rw sooner refl)
  | inr later ↦ inr (rw later refl, λ e. cc)
]

-- What the loop makes of the best next hop so far.
abbrev Found :
    Arrival → PitEntry → Option (NextHop × ℕ) → List NextHop → Option (NextHop × ℕ) → Type 0
Found a e found hs r =
    ((r ≡ found) × ((found ≢ none) ⊎ All (λ h. is_eligible a e h ≡ false) hs))
    ⊎ ((h : NextHop) × (at : ℕ) × (r ≡ some (h, at))
        × Any (λ k. (k ≡ h) × (is_eligible a e k ≡ true)) hs)

Found-skip :
    (a : Arrival) (e : PitEntry) (found r : Option (NextHop × ℕ)) (h : NextHop) (hs : List NextHop)
    → is_eligible a e h ≡ false
    → Found a e found hs r
    → Found a e found (h ∷ hs) r
Found-skip a e found r h hs bad (inl (same, inl n)) = inl (same, inl n)
Found-skip a e found r h hs bad (inl (same, inr shut)) = inl (same, inr (bad, shut))
Found-skip a e found r h hs bad (inr (k, at, same, some_k)) = inr (k, at, same, inr some_k)

Found-take :
    (a : Arrival) (e : PitEntry) (found r : Option (NextHop × ℕ)) (h : NextHop) (at : ℕ)
    (hs : List NextHop)
    → is_eligible a e h ≡ true
    → Found a e (earlier found h at) hs r
    → Found a e found (h ∷ hs) r
Found-take a e found r h at hs good (inr (k, time, same, some_k)) = inr (k, time, same, inr some_k)
Found-take a e found r h at hs good (inl (same, _)) = elim (earlier-cases found h at) [
  | inl taken ↦ inr (h, at, same ∙ taken, inl (refl, good))
  | inr (kept, n) ↦ inl (same ∙ kept, inl n)
]

-- The loop makes no fault where every eligible next hop has been used.
earliest_lem :
    (a : Arrival) (e : PitEntry) (now : ℕ) (found : Option (NextHop × ℕ)) (hs : List NextHop)
    → All (λ h. is_unused a e now h ≡ false) hs
    → (r : Option (NextHop × ℕ)) × (earliest_from a e found hs ≡ some r) × Found a e found hs r
unfolding earliest_from
earliest_lem a e now found [] used = (found, refl, inl (refl, inr tt))
earliest_lem a e now found (h ∷ hs) used = elim (Bool-cases (is_eligible a e h)) [
  | inr bad ↦
      let (r, run, why) = earliest_lem a e now found hs used.1 in
      (r, rw bad run, Found-skip a e found r h hs bad why)
  | inl good ↦
      let (o, there) = used_record a e now h good used.0 in
      let at = o.base.last_renewed in
      let (r, run, why) = earliest_lem a e now (earlier found h at) hs used.1 in
      (r, rw (good, there) run, Found-take a e found r h at hs good why)
]

-- What each outcome says of the next hops.
abbrev Explained : RetxSuppressionResult → Arrival → Outcome → Type 0
Explained r a suppressed = r ≡ suppress
Explained r a (sent_to face) = Any (λ h. (h.face ≡ face) × IsAllowed a h) a.next_hops
Explained r a no_route = All (λ h. ¬ IsAllowed a h) a.next_hops
Explained r a no_next_hop = All (λ h. ¬ IsAllowed a h) a.next_hops

none-IsAllowed :
    (a : Arrival) (e : PitEntry) (hs : List NextHop)
    → All (λ h. is_eligible a e h ≡ false) hs
    → All (λ h. ¬ IsAllowed a h) hs
none-IsAllowed a e hs bad =
    All-weaken _ _ hs
      (λ h bad_h. λ ok. let good = (eligible_iff a e h).1 ok in absurd (ground arith)) bad

some-IsAllowed :
    (a : Arrival) (e : PitEntry) (h : NextHop) (hs : List NextHop)
    → Any (λ k. (k ≡ h) × (is_eligible a e k ≡ true)) hs
    → Any (λ k. (k.face ≡ h.face) × IsAllowed a k) hs
some-IsAllowed a e h hs found =
    Any-weaken _ _ hs (λ k p. (ap (λ j. j.face) p.0, (eligible_iff a e k).0 p.1)) found

unused-eligible :
    (a : Arrival) (e : PitEntry) (now : ℕ) (h : NextHop)
    → is_unused a e now h ≡ true
    → is_eligible a e h ≡ true
unfolding is_unused
unused-eligible a e now h u = elim (Bool-cases (is_eligible a e h)) [
  | inl good ↦ good
  | inr bad ↦ absurd (ground arith)
]

forward_interest_lem :
    (default_lifetime now : ℕ) (a : Arrival) (e : PitEntry) (r : RetxSuppressionResult)
    → (o : Outcome) × (e' : PitEntry) × (forward_interest default_lifetime now a e r ≡ some (o, e'))
      × Explained r a o
unfolding forward_interest
forward_interest_lem default_lifetime now a e suppress = (suppressed, e, refl, refl)
forward_interest_lem default_lifetime now a e new =
    elim (Option-cases (find_hop (is_eligible a e) a.next_hops)) [
      | inl empty ↦ (
        no_route,
        e,
        ground (arith, empty),
        none-IsAllowed a e a.next_hops (find_hop-none _ a.next_hops empty),
      )
      | inr (h, there) ↦
          let (o, e') = send_interest default_lifetime now a e h in
          (
            o,
            e',
            ground (arith, there),
            some-IsAllowed a e h a.next_hops (find_hop_lem _ a.next_hops h there),
          )
    ]
forward_interest_lem default_lifetime now a e forward =
    elim (Option-cases (find_hop (is_unused a e now) a.next_hops)) [
      | inr (h, there) ↦
          let (o, e') = send_interest default_lifetime now a e h in
          let found =
            Any-weaken (λ k. (k ≡ h) × (is_unused a e now k ≡ true))
              (λ k. (k ≡ h) × (is_eligible a e k ≡ true)) a.next_hops
              (λ k p. (p.0, unused-eligible a e now k p.1)) (find_hop_lem _ a.next_hops h there) in
          (o, e', ground (arith, there), some-IsAllowed a e h a.next_hops found)
      | inl all_used ↦
          let used = find_hop-none _ a.next_hops all_used in
          let (r, run, why) = earliest_lem a e now none a.next_hops used in
          after_loop r run all_used why
    ]
  where
    after_loop :
        (r : Option (NextHop × ℕ))
        → earliest_from a e none a.next_hops ≡ some r
        → find_hop (is_unused a e now) a.next_hops ≡ none
        → Found a e none a.next_hops r
        → (o : Outcome) × (e' : PitEntry) × (forward_interest default_lifetime now a e forward
            ≡ some (o, e'))
          × Explained forward a o
    after_loop none run used (inl (_, inl n)) = absurd (n refl)
    after_loop none run used (inl (_, inr shut)) =
        (no_next_hop, e, ground (arith, used, run), none-IsAllowed a e a.next_hops shut)
    after_loop none run used (inr (h, at, same, _)) = cc
    after_loop (some (k, time)) run used (inl (same, _)) = cc
    after_loop (some (k, time)) run used (inr (h, at, same, found)) =
        let (o, e') = send_interest default_lifetime now a e k in
        let eq : h ≡ k = ground (arith, same) in
        (
          o,
          e',
          ground (arith, used, run),
          subst (λ j. Any (λ i. (i.face ≡ j.face) × IsAllowed a i) a.next_hops) eq
              (some-IsAllowed a e h a.next_hops found),
        )

-- Why the strategy does what it does with an Interest.
abbrev pub Reason : RetxSuppressionExponential → ℕ → ℕ → Arrival → PitEntry → Outcome → Type 0
Reason s asked now a e suppressed =
    (has_pending_out_records asked e ≡ true)
    × Any (λ r. now < r.base.last_renewed + interval_of s e.suppression_interval * 10 ^ 3)
        e.out_records
Reason s asked now a e (sent_to face) = Any (λ h. (h.face ≡ face) × IsAllowed a h) a.next_hops
Reason s asked now a e no_route = All (λ h. ¬ IsAllowed a h) a.next_hops
Reason s asked now a e no_next_hop = All (λ h. ¬ IsAllowed a h) a.next_hops

reason :
    (s : RetxSuppressionExponential) (asked now : ℕ) (a : Arrival) (e : PitEntry)
    (r : RetxSuppressionResult) (o : Outcome)
    → ((r ≡ suppress) → Reason s asked now a e suppressed)
    → Explained r a o
    → Reason s asked now a e o
reason s asked now a e r suppressed late why = late why
reason s asked now a e r (sent_to face) late why = why
reason s asked now a e r no_route late why = why
reason s asked now a e r no_next_hop late why = why

-- `afterReceiveInterest` of the best-route strategy makes no fault: every next hop that the last search
-- meets has an out-record. An Interest is suppressed only if the entry is pending and an out-record was
-- renewed within the interval; it is sent only to the face of a next hop that scope allows and
-- that is not the face it came from, unless that is ad hoc; it is refused with NoRoute, or dropped for
-- lack of a next hop, only if there is no such next hop. This is for an entry whose interval is within
-- its bounds and for a multiplier of one at least.
pub after_receive_interest_lem :
    (s : RetxSuppressionExponential) (default_lifetime asked now : ℕ) (a : Arrival) (e : PitEntry)
    → 0 < s.initial_interval
    → ((n : ℕ) → n ≤ s.max_interval → n ≤ s.grow n)
    → IsBetween s e
    → (o : Outcome) × (e' : PitEntry) × (after_receive_interest s default_lifetime asked now a e
        ≡ some (o, e'))
      × Reason s asked now a e o
unfolding after_receive_interest
after_receive_interest_lem s default_lifetime asked now a e pos grows between =
    let (r, decided, step, choice, _, _, _, _) =
      decide_per_pit_entry_lem s asked now e pos grows between in
    let (o, e', run, why) = forward_interest_lem default_lifetime now a decided r in
    let late : (r ≡ suppress) → Reason s asked now a e suppressed = λ is_late. elim choice [
      | inl (is_new, _, _) ↦ cc
      | inr (pending, inl (_, recent)) ↦ (pending, recent)
      | inr (pending, inr (is_forward, _)) ↦ cc
    ] in
    (o, e', rw step run, reason s asked now a e r o late why)
