-- ===== src/Fw/Retx.antt =====
-- Retransmission suppression: `RetxSuppressionFixed` (daemon/fw/retx-suppression-fixed.cpp) and
-- `RetxSuppressionExponential` (daemon/fw/retx-suppression-exponential.cpp). Time points are in
-- nanoseconds, the fixed interval in milliseconds and the growing ones in microseconds. The clock,
-- which a decision reads twice, is two arguments, `asked` and `now`; it never runs back, so a time
-- point of the past is not above it. `none` is the failed assertion of `getLastOutgoing`.
pub mod Decisions
pub mod Sent
use mathlib.Core.Option
use nfd_qo_s.Base.{ℕ, ◌-◌, ◌*◌, ◌^◌, min, not, Option, none, some, ltb, if◌then◌else◌, ◌>>=◌}
use nfd_qo_s.Table.Pit.{OutRecord, PitEntry, out_face, get_out_record}
use nfd_qo_s.Fw.Algorithm.{has_pending_out_records, get_last_outgoing}
use nfd_qo_s.Table.Records.{update_first}

pub data RetxSuppressionResult : Type 0 where
  new : RetxSuppressionResult
  forward : RetxSuppressionResult
  suppress : RetxSuppressionResult

unfoldable pub decide_fixed : ℕ → ℕ → ℕ → PitEntry → Option RetxSuppressionResult
decide_fixed min_retx_interval asked now e =
    if not (has_pending_out_records asked e) then some new else (do
      last ← get_last_outgoing e
      some (if ltb (now - last) (min_retx_interval * 10 ^ 6) then suppress else forward))

-- `grow` multiplies an interval by the multiplier, a `float`, and casts it back.
pub record RetxSuppressionExponential : Type 0 where
  pub initial_interval : ℕ
  pub max_interval : ℕ
  pub grow : ℕ → ℕ

-- `insertStrategyInfo` makes the interval at the first use.
abbrev pub interval_of : RetxSuppressionExponential → Option ℕ → ℕ
interval_of s interval = Option.get_or interval s.initial_interval

abbrev pub next_interval : RetxSuppressionExponential → ℕ → ℕ
next_interval s interval = min s.max_interval (s.grow interval)

unfoldable pub decide_per_pit_entry :
    RetxSuppressionExponential → ℕ → ℕ → PitEntry → Option (RetxSuppressionResult × PitEntry)
decide_per_pit_entry s asked now e =
    if not (has_pending_out_records asked e) then some (new, e) else (do
      last ← get_last_outgoing e
      let interval = interval_of s e.suppression_interval
      some (
          if ltb (now - last) (interval * 10 ^ 3)
          then (suppress, record e { suppression_interval = some interval })
          else (forward, record e { suppression_interval = some (next_interval s interval) })))

unfoldable pub decide_per_upstream :
    RetxSuppressionExponential → ℕ → ℕ → PitEntry → RetxSuppressionResult × PitEntry
decide_per_upstream s now face e = elim (get_out_record face e) [
  | none ↦ (new, e)
  | some r ↦
      let interval = interval_of s r.suppression_interval in
      let e' = record e {
        out_records =
            update_first out_face face (λ o. record o { suppression_interval = some interval })
              e.out_records;
      } in
      (if ltb (now - r.base.last_renewed) (interval * 10 ^ 3) then suppress else forward, e')
]

unfoldable pub increment_interval_for_out_record :
    RetxSuppressionExponential → OutRecord → OutRecord
increment_interval_for_out_record s r = record r {
  suppression_interval = some (next_interval s (interval_of s r.suppression_interval));
}
