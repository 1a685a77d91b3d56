-- ===== src/Lp/LinkService.antt =====
-- The sequence numbers that `GenericLinkService` of daemon/face/generic-link-service.cpp gives to
-- the fragments of a packet, between the fragmenter and the reassembler of the peer.
pub mod RoundTrip
use nfd_qo_s.Base.{ℕ, ◌+◌, ◌%◌, ◌^◌, some, List, [], ◌∷◌}
use nfd_qo_s.Lp.Packet.{LpPacket}

-- `assignSequence`: `++m_lastSeqNo` in `uint64_t`. The packet, and the last number afterwards.
assign_sequence : ℕ → LpPacket → LpPacket × ℕ
assign_sequence last p = let next = (last + 1) % 2 ^ 64 in (record p { sequence = some next }, next)

unfoldable pub assign_sequences : ℕ → List LpPacket → List LpPacket × ℕ
unfolding assign_sequence
assign_sequences last [] = ([], last)
assign_sequences last (p ∷ ps) =
    let (p', next) = assign_sequence last p in
    let (ps', end) = assign_sequences next ps in (p' ∷ ps', end)
