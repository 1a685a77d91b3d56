-- ===== src/Lp/Reassembler.antt =====
-- `LpReassembler` of daemon/face/lp-reassembler.hpp and lp-reassembler.cpp. A fault is `none`: a read
-- of a field that a packet lacks. The drop timer of a partial packet is a flag, and its expiry is the
-- call of `timeout_partial_packet`.
pub mod Slots
pub mod AnyOrder
use nfd_qo_s.Base.{
  ℕ, ◌+◌, ◌-◌, ◌%◌, ◌^◌, Bool, true, false, not, ◌&&◌, Option, none, some, List, [], ◌∷◌, ◌++◌, ltb,
  leb, ◌==◌, if◌then◌else◌, ◌>>=◌, get_elem?, set, replicate,
}
use mathlib.Core.Option
use nfd_qo_s.Lp.Packet.{LpPacket, blank}

pub record PartialPacket : Type 0 where
  pub fragments : List LpPacket
  pub frag_count : ℕ
  pub n_received : ℕ
  pub drop_timer : Bool

abbrev fresh : PartialPacket
fresh = record { fragments = []; frag_count = 0; n_received = 0; drop_timer = false }

-- The remote endpoint, and the sequence number of the message's first fragment.
abbrev pub Key : Type 0
Key = ℕ × ℕ

same_key : Key → Key → Bool
same_key (e, s) (e', s') = e == e' && s == s'

-- `m_partialPackets`
unfoldable pub find_partial : Key → List (Key × PartialPacket) → Option PartialPacket
unfolding same_key
find_partial key [] = none
find_partial key ((k, pp) ∷ m) = if same_key k key then some pp else find_partial key m

pub put_partial : Key → PartialPacket → List (Key × PartialPacket) → List (Key × PartialPacket)
unfolding same_key
put_partial key pp [] = (key, pp) ∷ []
put_partial key pp ((k, old) ∷ m) =
    if same_key k key then (key, pp) ∷ m else (k, old) ∷ put_partial key pp m

pub erase_partial : Key → List (Key × PartialPacket) → List (Key × PartialPacket)
unfolding same_key
erase_partial key [] = []
erase_partial key ((k, pp) ∷ m) =
    let rest = erase_partial key m in if same_key k key then rest else (k, pp) ∷ rest

-- The reassembled payload and the first fragment.
abbrev pub Message : Type 0
Message = List ℕ × LpPacket

pub record Reassembler : Type 0 where
  pub max_fragments : ℕ
  pub partial_packets : List (Key × PartialPacket)

unfoldable pub do_reassembly : List LpPacket → Option (List ℕ)
do_reassembly [] = some []
do_reassembly (p ∷ ps) = do bytes ← p.fragment; rest ← do_reassembly ps; some (bytes ++ rest)

-- The message identifier, in `uint64_t`.
pub message_of : ℕ → ℕ → ℕ
message_of sequence index = (sequence + 2 ^ 64 - index) % 2 ^ 64

unfoldable pub open_partial : ℕ → Option PartialPacket → PartialPacket
open_partial count none = record fresh { frag_count = count; fragments = replicate count blank }
open_partial count (some pp) =
    if pp.frag_count == 0
    then record pp { frag_count = count; n_received = 0; fragments = replicate count blank }
    else pp

unfoldable pub has_sequence : LpPacket → Bool
has_sequence p = elim p.sequence [ none ↦ false | some s ↦ true ]

-- From the look-up of the partial packet to the end of `receiveFragment`.
pub add_fragment : Reassembler → Key → ℕ → ℕ → LpPacket → Option (Reassembler × Option Message)
unfolding open_partial has_sequence
add_fragment r key index count packet =
    let pp = open_partial count (find_partial key r.partial_packets) in
    let opened = record r { partial_packets = put_partial key pp r.partial_packets } in
    if not (count == pp.frag_count) then some (opened, none) else (do
      slot ← get_elem? pp.fragments index
      if has_sequence slot
          then some (opened, none)
          else (let pp' = record pp {
            fragments = set pp.fragments index packet;
            n_received = pp.n_received + 1;
          } in
              if pp'.n_received == pp'.frag_count
              then (do
                bytes ← do_reassembly pp'.fragments
                first ← get_elem? pp'.fragments 0
                some (
                  record r { partial_packets = erase_partial key r.partial_packets },
                  some (bytes, first),
                ))
              else some (
                record r {
                  partial_packets =
                      put_partial key (record pp' { drop_timer = true }) r.partial_packets;
                },
                none,
              )))

-- `none` inside is the result `false`.
unfoldable pub receive_fragment : Reassembler → ℕ → LpPacket → Option (Reassembler × Option Message)
unfolding add_fragment find_partial put_partial erase_partial message_of
receive_fragment r endpoint packet =
    let index = Option.get_or packet.frag_index 0 in
    let count = Option.get_or packet.frag_count 1 in
    if leb count index
    then some (r, none)
    else if ltb r.max_fragments count
    then some (r, none)
    else if index == 0 && count == 1
    then (do bytes ← packet.fragment; some (r, some (bytes, packet)))
    else elim packet.sequence [
      | none ↦ some (r, none)
      | some sequence ↦ add_fragment r (endpoint, message_of sequence index) index count packet
    ]

-- The state afterwards, and the arguments of the signal `beforeTimeout` if it is emitted.
unfoldable pub timeout_partial_packet : Reassembler → Key → Reassembler × Option (ℕ × ℕ)
timeout_partial_packet r key = elim (find_partial key r.partial_packets) [
  | none ↦ (r, none)
  | some pp ↦ (
    record r { partial_packets = erase_partial key r.partial_packets },
    some (key.0, pp.n_received),
  )
]
