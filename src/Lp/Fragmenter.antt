-- ===== src/Lp/Fragmenter.antt =====
-- `LpFragmenter` of daemon/face/lp-fragmenter.hpp and lp-fragmenter.cpp. The encoder of ndn-cxx is a
-- parameter: the size of a packet's encoding, and the types and sizes of its elements where the
-- encoding is an LpPacket element (none where it is a bare network-layer packet).
pub mod Chunks
pub mod Pieces
pub mod Result
use nfd_qo_s.Base.{
  ℕ, zero, suc, ◌+◌, ◌-◌, ◌/◌, ◌%◌, min, Bool, true, false, ◌||◌, Option, none, some, List, [], ◌∷◌,
  ltb, leb, ◌==◌, if◌then◌else◌, ◌>>=◌, length, get_elem?, set, take, drop, replicate,
}
use nfd_qo_s.Lp.Packet.{LpPacket, blank}

pub record Codec : Type 0 where
  pub wire_size : LpPacket → ℕ
  pub elements : LpPacket → List (ℕ × ℕ)
  -- `lp::tlv::Fragment`
  pub fragment_type : ℕ

abbrev pub max_single_frag_overhead : ℕ
max_single_frag_overhead = 1 + 9 + (1 + 1 + 8) + (1 + 9)

abbrev pub max_frag_overhead : ℕ
max_frag_overhead = 1 + 9 + (1 + 1 + 8) + (1 + 1 + 8) + (1 + 1 + 8) + (1 + 9)

unfoldable pub first_header_size : ℕ → List (ℕ × ℕ) → ℕ
first_header_size fragment_type [] = 0
first_header_size fragment_type ((type, size) ∷ es) =
    (if type == fragment_type then 0 else size) + first_header_size fragment_type es

-- The number of fragments that a payload needs.
pub frag_count_of : ℕ → ℕ → ℕ → ℕ
frag_count_of net_size first payload =
    1 + (net_size - first) / payload + (if (net_size - first) % payload == 0 then 0 else 1)

-- The fields of a fragment. The code adds the first two to a packet that has neither.
unfoldable pub stamp : ℕ → ℕ → List ℕ → LpPacket → LpPacket
stamp index count bytes p = record p {
  frag_index = some index;
  frag_count = some count;
  fragment = some bytes;
}

-- `BOOST_ASSERT(frag.wireEncode().size() <= mtu)`
pub checked : Codec → ℕ → LpPacket → Option LpPacket
checked codec mtu p = if leb (codec.wire_size p) mtu then some p else none

-- The loop that populates the fragments. `rest` runs from `fragBegin` to the end of the payload, and
-- `size` is the length of the next fragment. The fuel is the length of the payload, since each round
-- takes an octet at least; `none` is lack of fuel, an index outside the vector, or a failed assertion.
pub populate : Codec → ℕ → ℕ → ℕ → ℕ → List LpPacket → ℕ → List ℕ → ℕ → Option (List LpPacket × ℕ)
unfolding stamp checked
populate codec mtu fuel count payload frags index [] size = some (frags, index)
populate codec mtu zero count payload frags index (b ∷ bs) size = none
populate codec mtu (suc fuel) count payload frags index (b ∷ bs) size = do
  frag ← get_elem? frags index
  frag' ← checked codec mtu (stamp index count (take size (b ∷ bs)) frag)
  populate codec mtu fuel count payload (set frags index frag') (index + 1) (drop size (b ∷ bs))
      payload

-- `fragmentPacket`, where the payload is read; `none` inside is the result `false`.
fragment_bytes : Codec → ℕ → LpPacket → ℕ → List ℕ → Option (Option (List LpPacket))
unfolding populate
fragment_bytes codec max_fragments packet mtu bytes =
    if leb (max_single_frag_overhead + codec.wire_size packet) mtu
    then some (some (packet ∷ []))
    else (let header = first_header_size codec.fragment_type (codec.elements packet) in
        if ltb mtu (max_frag_overhead + header + 1)
        then some none
        else (let size = length bytes in
            let first = min size (mtu - header - max_frag_overhead) in
            let payload = mtu - max_frag_overhead in
            let count = frag_count_of size first payload in
            if ltb max_fragments count then some none else (do
              (frags, index) ←
                  populate codec mtu size count payload (packet ∷ replicate (count - 1) blank) 0
                    bytes first
              if index == count then some (some frags) else none)))

abbrev pub is_set : Option ℕ → Bool
is_set none = false
is_set (some n) = true

-- The outer `none` is a failed assertion.
unfoldable pub fragment_packet : Codec → ℕ → LpPacket → ℕ → Option (Option (List LpPacket))
unfolding first_header_size frag_count_of fragment_bytes
fragment_packet codec max_fragments packet mtu = do
  bytes ← packet.fragment
  if is_set packet.frag_index || is_set packet.frag_count
      then none
      else fragment_bytes codec max_fragments packet mtu bytes
