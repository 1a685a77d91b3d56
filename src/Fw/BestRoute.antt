-- ===== src/Fw/BestRoute.antt =====
-- `BestRouteStrategy2::afterReceiveInterest` of daemon/fw/best-route-strategy2.cpp, with the record that
-- `Forwarder::onOutgoingInterest` (daemon/fw/forwarder.cpp) makes for the Interest it sends. The scope
-- and the link type of a face are a parameter. The clock readings of the strategy are one, `now`; those
-- of the suppression are `asked` and `now`. `none` is a failed assertion.
pub mod Choice
use nfd_qo_s.Base.{
  ℕ, Bool, true, false, not, ◌&&◌, Option, none, some, List, [], ◌∷◌, ltb, ◌==◌, if◌then◌else◌,
  ◌>>=◌,
}
use nfd_qo_s.Table.Pit.{Interest, PitEntry, get_out_record, insert_or_update_out_record}
use nfd_qo_s.Table.Fib.{NextHop}
use nfd_qo_s.Fw.Algorithm.{Prefixes, would_violate_scope}
use nfd_qo_s.Fw.Retx.{
  RetxSuppressionResult, new, forward, suppress, RetxSuppressionExponential, decide_per_pit_entry,
}

pub record FaceInfo : Type 0 where
  pub is_local : Bool
  pub is_ad_hoc : Bool

-- The Interest that has arrived, with what the strategy reads besides the PIT entry.
pub record Arrival : Type 0 where
  pub prefixes : Prefixes
  pub faces : ℕ → FaceInfo
  pub in_face : ℕ
  pub interest : Interest
  pub next_hops : List NextHop

unfoldable pub is_eligible : Arrival → PitEntry → NextHop → Bool
is_eligible a e h =
    if h.face == a.in_face && not (a.faces h.face).is_ad_hoc
    then false
    else if would_violate_scope a.prefixes (a.faces a.in_face).is_local a.interest
        (a.faces h.face).is_local
    then false
    else true

-- With `wantUnused`: the face has no unexpired out-record either.
unfoldable pub is_unused : Arrival → PitEntry → ℕ → NextHop → Bool
is_unused a e now h =
    let used : Bool = elim (get_out_record h.face e) [
      | none ↦ false
      | some r ↦ ltb now r.base.expiry
    ] in
    is_eligible a e h && not used

-- `std::find_if` over the next hops
pub find_hop : (NextHop → Bool) → List NextHop → Option NextHop
find_hop test [] = none
find_hop test (h ∷ hs) = if test h then some h else find_hop test hs

abbrev pub earlier : Option (NextHop × ℕ) → NextHop → ℕ → Option (NextHop × ℕ)
earlier none h at = some (h, at)
earlier (some (k, best)) h at = if ltb at best then some (h, at) else some (k, best)

-- The loop of `findEligibleNextHopWithEarliestOutRecord`, from the next hop found so far with its last
-- renewal; `TimePoint::max()`, which every renewal precedes, belongs to none.
pub earliest_from :
    Arrival → PitEntry → Option (NextHop × ℕ) → List NextHop → Option (Option (NextHop × ℕ))
earliest_from a e found [] = some found
earliest_from a e found (h ∷ hs) =
    let skip = earliest_from a e found hs in
    if not (is_eligible a e h) then skip else (do
      r ← get_out_record h.face e
      let at = r.base.last_renewed
      earliest_from a e (earlier found h at) hs)

-- What the strategy does: it drops the Interest, sends it to a face, answers with the Nack NoRoute and
-- rejects the pending Interest, or finds no next hop for a retransmission.
pub data Outcome : Type 0 where
  suppressed : Outcome
  sent_to : ℕ → Outcome
  no_route : Outcome
  no_next_hop : Outcome

abbrev pub send_interest : ℕ → ℕ → Arrival → PitEntry → NextHop → Outcome × PitEntry
send_interest default_lifetime now a e h =
    (sent_to h.face, insert_or_update_out_record default_lifetime now h.face a.interest e)

-- From the decision on.
pub forward_interest :
    ℕ → ℕ → Arrival → PitEntry → RetxSuppressionResult → Option (Outcome × PitEntry)
unfolding find_hop earliest_from is_unused is_eligible
forward_interest default_lifetime now a e suppress = some (suppressed, e)
forward_interest default_lifetime now a e new = elim (find_hop (is_eligible a e) a.next_hops) [
  | none ↦ some (no_route, e)
  | some h ↦ some (send_interest default_lifetime now a e h)
]
forward_interest default_lifetime now a e forward =
    elim (find_hop (is_unused a e now) a.next_hops) [
      | some h ↦ some (send_interest default_lifetime now a e h)
      | none ↦ elim (earliest_from a e none a.next_hops) [
        | none ↦ none
        | some none ↦ some (no_next_hop, e)
        | some (some (h, at)) ↦ some (send_interest default_lifetime now a e h)
      ]
    ]

unfoldable pub after_receive_interest :
    RetxSuppressionExponential → ℕ → ℕ → ℕ → Arrival → PitEntry → Option (Outcome × PitEntry)
unfolding forward_interest
after_receive_interest s default_lifetime asked now a e = do
  (suppression, e') ← decide_per_pit_entry s asked now e
  forward_interest default_lifetime now a e' suppression
