-- ===== src/Fw/ProcessNack.antt =====
-- `ProcessNackTraitsBase::processNack` of daemon/fw/process-nack-traits.cpp. A Nack's reason is a
-- number; the order of severity (`isLessSevere` of ndn-cxx) and the number of the reason NONE are
-- parameters. The Nacks that the code sends are the result.
pub mod Answer
use nfd_qo_s.Base.{ℕ, ◌+◌, Bool, Option, none, some, List, [], ◌∷◌, ltb, ◌==◌, if◌then◌else◌}
use nfd_qo_s.Table.Pit.{OutRecord, PitEntry, get_in_record}

pub record Severity : Type 0 where
  pub none_reason : ℕ
  pub is_less_severe : ℕ → ℕ → Bool

-- `nOutRecordsNotNacked`, `lastFaceNotNacked` and `leastSevereReason`
pub record Scan : Type 0 where
  pub not_nacked : ℕ
  pub last_face : Option ℕ
  pub reason : ℕ

abbrev pub scan_record : Severity → OutRecord → Scan → Scan
scan_record s o c = elim o.incoming_nack [
  | none ↦ record c { not_nacked = c.not_nacked + 1; last_face = some o.base.face }
  | some n ↦ if s.is_less_severe n c.reason then record c { reason = n } else c
]

pub scan_records : Severity → List OutRecord → Scan → Scan
scan_records s [] c = c
scan_records s (o ∷ os) c = scan_records s os (scan_record s o c)

pub data NackAnswer : Type 0 where
  nack_to : ℕ → ℕ → NackAnswer
  waiting : NackAnswer
  nack_to_all : ℕ → NackAnswer

abbrev pub is_downstream : PitEntry → Option ℕ → Option ℕ
is_downstream e none = none
is_downstream e (some face) = elim (get_in_record face e) [ none ↦ none | some r ↦ some face ]

-- From the end of the loop on.
pub answer_of : PitEntry → Scan → NackAnswer
answer_of e c =
    let to : Option ℕ = if c.not_nacked == 1 then is_downstream e c.last_face else none in
    elim to [
      | some face ↦ nack_to face c.reason
      | none ↦ if ltb 0 c.not_nacked then waiting else nack_to_all c.reason
    ]

unfoldable pub process_nack : Severity → PitEntry → NackAnswer
unfolding scan_records answer_of
process_nack s e = answer_of e (
    scan_records s e.out_records
      (record { not_nacked = 0; last_face = none; reason = s.none_reason }))
