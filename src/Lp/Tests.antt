-- ===== src/Lp/Tests.antt =====
-- Runs of the fragmenter and the reassembler on a packet of five octets.
use nfd_qo_s.Base.{
  ℕ, ◌+◌, ◌≡◌, refl, ◌≢◌, true, Option, none, some, List, [], ◌∷◌, map, arith, if◌then◌else◌,
  length, null,
}
use nfd_qo_s.Lp.Packet.{LpPacket, blank}
use nfd_qo_s.Lp.LinkService.{assign_sequences}
use nfd_qo_s.Lp.LinkService.RoundTrip.{receive-fragment_packet}
use nfd_qo_s.Lp.Fragmenter.{Codec, first_header_size, stamp, fragment_packet}
use nfd_qo_s.Lp.Fragmenter.Result.{Explains, IsEncoder, fragment_packet-Explains}
use nfd_qo_s.Lp.Reassembler.{find_partial, Reassembler, do_reassembly, open_partial, has_sequence}
use nfd_qo_s.Lp.Reassembler.Slots.{missing, IsHolding}
use nfd_qo_s.Lp.Reassembler.AnyOrder.{receive_all, packet_at, receive_all_lem}

-- An encoding of 100 octets for a packet that is not cut, of 10 and the payload for a fragment, with
-- a header of 3 where the packet has other fields.
abbrev bulky : Codec
bulky = record {
  wire_size = λ p. elim p.frag_index [
    | none ↦ 100
    | some i ↦ 10 + (elim p.fragment [ none ↦ 0 | some bytes ↦ length bytes ])
  ];
  elements = λ p. if null p.header then (80, 90) ∷ [] else (800, 3) ∷ (80, 90) ∷ [];
  fragment_type = 80;
}

bulky-IsEncoder : IsEncoder bulky
unfolding stamp first_header_size
bulky-IsEncoder = record {
  piece_size = λ index count bytes p h k. omega arith;
  blank_elements = refl;
}

abbrev five : LpPacket
five = record blank { header = 7 ∷ []; fragment = some (1 ∷ 2 ∷ 3 ∷ 4 ∷ 5 ∷ []) }

-- The first fragment has room for two octets, the others for five.
abbrev frags : List LpPacket
frags =
    record five { frag_index = some 0; frag_count = some 2; fragment = some (1 ∷ 2 ∷ []) }
    ∷ record blank { frag_index = some 1; frag_count = some 2; fragment = some (3 ∷ 4 ∷ 5 ∷ []) }
    ∷ []

abbrev sent : List LpPacket
sent =
    record five {
      frag_index = some 0;
      frag_count = some 2;
      fragment = some (1 ∷ 2 ∷ []);
      sequence = some 10;
    }
    ∷ record blank {
      frag_index = some 1;
      frag_count = some 2;
      fragment = some (3 ∷ 4 ∷ 5 ∷ []);
      sequence = some 11;
    }
    ∷ []

abbrev empty : Reassembler
empty = record { max_fragments = 400; partial_packets = [] }

fragment_packet_run : fragment_packet bulky 400 five 55 ≡ some (some frags)
unfolding fragment_packet
fragment_packet_run = refl

fragment_packet-Explains_example :
    (r : Option (List LpPacket)) × (fragment_packet bulky 400 five 55 ≡ some r)
    × Explains bulky 400 five (1 ∷ 2 ∷ 3 ∷ 4 ∷ 5 ∷ []) 55 r
fragment_packet-Explains_example =
    fragment_packet-Explains bulky 400 five 1 (2 ∷ 3 ∷ 4 ∷ 5 ∷ []) 55 bulky-IsEncoder refl refl refl

nothing_held : find_partial (7, 10) empty.partial_packets ≡ none
unfolding find_partial
nothing_held = refl

abbrev one_not_zero : ◌≢◌ {A = ℕ} 1 0
one_not_zero = λ e. absurd (omega (arith, e))

-- The second fragment arrives first.
receive-fragment_packet_example :
    (peer' : Reassembler) × (first : LpPacket) × (receive_all empty 7
        (map (packet_at (assign_sequences 9 frags).0) (1 ∷ 0 ∷ []))
      ≡ some (peer', none ∷ some (1 ∷ 2 ∷ 3 ∷ 4 ∷ 5 ∷ [], first) ∷ []))
    × (first.header ≡ 7 ∷ [])
receive-fragment_packet_example =
    receive-fragment_packet bulky 400 five 1 (2 ∷ 3 ∷ 4 ∷ 5 ∷ []) 55 frags 9 7 empty 1 (0 ∷ []) refl
      fragment_packet_run (omega arith) (omega arith) (omega arith) nothing_held
      (omega arith, (omega arith, tt)) ((one_not_zero, tt), (tt, tt)) refl

whole_sent : do_reassembly sent ≡ some (1 ∷ 2 ∷ 3 ∷ 4 ∷ 5 ∷ [])
unfolding do_reassembly
whole_sent = refl

receive_all_lem_example :
    (r' : Reassembler) × (receive_all empty 7 (map (packet_at sent) (1 ∷ 0 ∷ []))
      ≡ some (r', none ∷ some (1 ∷ 2 ∷ 3 ∷ 4 ∷ 5 ∷ [], packet_at sent 0) ∷ []))
    × (find_partial (7, 10) r'.partial_packets ≡ none)
receive_all_lem_example =
    receive_all_lem sent 2 10 7 (1 ∷ 2 ∷ 3 ∷ 4 ∷ 5 ∷ []) (packet_at sent 0) refl (omega arith)
      (omega arith) (omega arith) (refl, refl, refl, (refl, refl, refl, tt)) whole_sent refl empty 1
      (0 ∷ []) (omega arith) nothing_held (omega arith, (omega arith, tt))
      ((one_not_zero, tt), (tt, tt)) refl

-- The first fragment has arrived.
abbrev half : Reassembler
half = record empty {
  partial_packets =
      (
        (7, 10),
        record {
          fragments = packet_at sent 0 ∷ blank ∷ [];
          frag_count = 2;
          n_received = 1;
          drop_timer = true;
        },
      )
      ∷ [];
}

half-IsHolding : IsHolding half (7, 10) 2 (packet_at sent 0 ∷ blank ∷ [])
unfolding find_partial open_partial missing has_sequence
half-IsHolding = record { fragments = refl; frag_count = refl; counted = refl }

has_sequence-sent : has_sequence (packet_at sent 0) ≡ true
unfolding has_sequence
has_sequence-sent = refl
