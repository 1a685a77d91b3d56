-- ===== src/Lp/Packet.antt =====
-- What the code reads and writes of an `lp::Packet`, a type of ndn-cxx: the fields of fragmentation,
-- and the octets of all other fields together.
use nfd_qo_s.Base.{ℕ, Option, none, List, []}

pub record LpPacket : Type 0 where
  pub header : List ℕ
  pub fragment : Option (List ℕ)
  pub frag_index : Option ℕ
  pub frag_count : Option ℕ
  pub sequence : Option ℕ

-- The default-constructed packet.
abbrev pub blank : LpPacket
blank = record {
  header = [];
  fragment = none;
  frag_index = none;
  frag_count = none;
  sequence = none;
}
