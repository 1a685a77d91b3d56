-- ===== src/Table/Pit.antt =====
-- `pit::Entry` of daemon/table/pit-entry.cpp with its records (pit-face-record.cpp, pit-in-record.cpp,
-- pit-out-record.cpp). A time point is a number of nanoseconds since `TimePoint::min()`. The Interest,
-- a type of ndn-cxx, is given by the octets of its name, its nonce and its lifetime, in nanoseconds;
-- `ndn::DEFAULT_INTEREST_LIFETIME` and the time are arguments.
pub mod Entry
use nfd_qo_s.Base.{
  ℕ, ◌+◌, Bool, true, false, not, Option, none, some, List, [], ◌==◌, if◌then◌else◌,
}
use nfd_qo_s.Base.Int.{ℤ, pos, negsuc}
use nfd_qo_s.Table.Records.{find_record, insert_or_update, erase_record}

pub record Interest : Type 0 where
  pub name : List ℕ
  pub nonce : ℕ
  pub lifetime : ℤ

pub record FaceRecord : Type 0 where
  pub face : ℕ
  pub last_nonce : ℕ
  pub last_renewed : ℕ
  pub expiry : ℕ

abbrev pub new_face_record : ℕ → FaceRecord
new_face_record face = record { face = face; last_nonce = 0; last_renewed = 0; expiry = 0 }

abbrev pub lifetime_of : ℕ → ℤ → ℕ
lifetime_of default_lifetime (pos n) = n
lifetime_of default_lifetime (negsuc n) = default_lifetime

abbrev pub renew : ℕ → ℕ → Interest → FaceRecord → FaceRecord
renew default_lifetime now interest r = record r {
  last_nonce = interest.nonce;
  last_renewed = now;
  expiry = now + lifetime_of default_lifetime interest.lifetime;
}

pub record InRecord : Type 0 where
  pub base : FaceRecord
  pub interest : Option Interest

abbrev pub new_in_record : ℕ → InRecord
new_in_record face = record { base = new_face_record face; interest = none }

abbrev pub update_in_record : ℕ → ℕ → Interest → InRecord → InRecord
update_in_record default_lifetime now interest r = record r {
  base = renew default_lifetime now interest r.base;
  interest = some interest;
}

-- A nack header is its reason. The strategy information is the suppression interval that
-- `RetxSuppressionExponential` keeps on the record.
pub record OutRecord : Type 0 where
  pub base : FaceRecord
  pub incoming_nack : Option ℕ
  pub suppression_interval : Option ℕ

abbrev pub new_out_record : ℕ → OutRecord
new_out_record face = record {
  base = new_face_record face;
  incoming_nack = none;
  suppression_interval = none;
}

abbrev pub update_out_record : ℕ → ℕ → Interest → OutRecord → OutRecord
update_out_record default_lifetime now interest r = record r {
  base = renew default_lifetime now interest r.base;
}

-- The record afterwards, and whether the nack is accepted.
unfoldable pub set_incoming_nack : ℕ → ℕ → OutRecord → OutRecord × Bool
set_incoming_nack nonce reason r =
    if not (nonce == r.base.last_nonce)
    then (r, false)
    else (record r { incoming_nack = some reason }, true)

abbrev pub clear_incoming_nack : OutRecord → OutRecord
clear_incoming_nack r = record r { incoming_nack = none }

pub record PitEntry : Type 0 where
  pub is_satisfied : Bool
  pub interest : Interest
  pub in_records : List InRecord
  pub out_records : List OutRecord
  pub suppression_interval : Option ℕ

abbrev pub new_entry : Interest → PitEntry
new_entry interest = record {
  is_satisfied = false;
  interest = interest;
  in_records = [];
  out_records = [];
  suppression_interval = none;
}

abbrev pub in_face : InRecord → ℕ
in_face r = r.base.face

abbrev pub out_face : OutRecord → ℕ
out_face r = r.base.face

abbrev pub get_in_record : ℕ → PitEntry → Option InRecord
get_in_record face e = find_record in_face face e.in_records

unfoldable pub insert_or_update_in_record : ℕ → ℕ → ℕ → Interest → PitEntry → PitEntry
insert_or_update_in_record default_lifetime now face interest e = record e {
  in_records =
      insert_or_update in_face face (new_in_record face)
        (update_in_record default_lifetime now interest) e.in_records;
}

unfoldable pub delete_in_record : ℕ → PitEntry → PitEntry
delete_in_record face e = record e { in_records = erase_record in_face face e.in_records }

abbrev pub clear_in_records : PitEntry → PitEntry
clear_in_records e = record e { in_records = [] }

abbrev pub get_out_record : ℕ → PitEntry → Option OutRecord
get_out_record face e = find_record out_face face e.out_records

unfoldable pub insert_or_update_out_record : ℕ → ℕ → ℕ → Interest → PitEntry → PitEntry
insert_or_update_out_record default_lifetime now face interest e = record e {
  out_records =
      insert_or_update out_face face (new_out_record face)
        (update_out_record default_lifetime now interest) e.out_records;
}

unfoldable pub delete_out_record : ℕ → PitEntry → PitEntry
delete_out_record face e = record e { out_records = erase_record out_face face e.out_records }
