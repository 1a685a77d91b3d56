-- ===== src/Lp/LinkService/RoundTrip.antt =====
-- What the fragmenter cuts, the reassembler joins.
use mathlib.Core.Path.{subst, subst₂}
use nfd_qo_s.Base.{
  ℕ, suc, ◌+◌, ◌%◌, ◌^◌, ◌≤◌, ◌<◌, ◌≡◌, refl, sym, ap, ◌∙◌, inl, inr, none, some, List, [], ◌∷◌,
  ◌++◌, map, arith, length, get_elem?, replicate, All,
}
use nfd_qo_s.Lp.Packet.{LpPacket, blank}
use nfd_qo_s.Lp.LinkService.{assign_sequences}
use nfd_qo_s.Lp.Fragmenter.Chunks.{concat, stamped, length-stamped}
use nfd_qo_s.Lp.Reassembler.{find_partial, Reassembler, do_reassembly}
use nfd_qo_s.Lp.Reassembler.Slots.{AreSent}
use nfd_qo_s.Lp.Fragmenter.{Codec, first_header_size, stamp, fragment_packet}
use nfd_qo_s.Lp.Fragmenter.Result.{Explains, fragment_packet-some}
use nfd_qo_s.Lp.Reassembler.AnyOrder.{receive_all, packet_at, AreDistinct, receive_all_lem}
use nfd_qo_s.Lp.Fragmenter.Pieces.{IsCut}

AreSent-assign :
    (n base i last : ℕ) (p : LpPacket) (cs : List (List ℕ))
    → (last + 1) % 2 ^ 64 ≡ (base + i) % 2 ^ 64
    → AreSent n base i (assign_sequences last (stamped i n p cs)).0
unfolding assign_sequences stamped stamp
AreSent-assign n base i last p [] e = tt
AreSent-assign n base i last p (c ∷ cs) e = (
  refl,
  refl,
  ap some e,
  AreSent-assign n base (i + 1) ((last + 1) % 2 ^ 64) blank cs (omega arith),
)

length-assign_sequences :
    (last : ℕ) (ps : List LpPacket) → length (assign_sequences last ps).0 ≡ length ps
unfolding assign_sequences
length-assign_sequences last [] = refl
length-assign_sequences last (p ∷ ps) = ap suc (length-assign_sequences ((last + 1) % 2 ^ 64) ps)

do_reassembly-assign :
    (n i last : ℕ) (p : LpPacket) (cs : List (List ℕ))
    → do_reassembly (assign_sequences last (stamped i n p cs)).0 ≡ some (concat cs)
unfolding assign_sequences stamped do_reassembly concat stamp
do_reassembly-assign n i last p [] = refl
do_reassembly-assign n i last p (c ∷ cs) =
    rw (do_reassembly-assign n (i + 1) ((last + 1) % 2 ^ 64) blank cs)

front-assign :
    (n last : ℕ) (p : LpPacket) (cs : List (List ℕ))
    → 0 < length cs
    → (first : LpPacket) × (get_elem? (assign_sequences last (stamped 0 n p cs)).0 0 ≡ some first)
      × (first.header ≡ p.header)
unfolding assign_sequences stamped stamp
front-assign n last p [] h = absurd (omega arith)
front-assign n last p (c ∷ cs) h = (_, refl, refl)

-- The numbered pieces of a message arrive in any order.
receive-stamped :
    (last endpoint : ℕ) (peer : Reassembler) (packet : LpPacket) (pieces : List (List ℕ)) (i : ℕ)
    (is : List ℕ)
    → 1 < length pieces
    → length pieces < 2 ^ 64
    → length pieces ≤ peer.max_fragments
    → find_partial (endpoint, (last + 1) % 2 ^ 64) peer.partial_packets ≡ none
    → All (λ j. j < length pieces) (i ∷ is)
    → AreDistinct (i ∷ is)
    → length pieces ≡ suc (length is)
    → let sent = (assign_sequences last (stamped 0 (length pieces) packet pieces)).0 in
      (peer' : Reassembler) × (first : LpPacket) × (receive_all peer endpoint
          (map (packet_at sent) (i ∷ is))
        ≡ some (peer', replicate (length is) none ++ some (concat pieces, first) ∷ []))
      × (first.header ≡ packet.header)
receive-stamped last endpoint peer packet pieces i is many small few new range distinct
      all_of_them =
    let n = length pieces in
    let base = (last + 1) % 2 ^ 64 in
    let frags = stamped 0 n packet pieces in
    let sent = (assign_sequences last frags).0 in
    let (first, front, same) = front-assign n last packet pieces (omega arith) in
    let counted : n ≡ length sent =
      sym (length-assign_sequences last frags ∙ length-stamped 0 n packet pieces) in
    let (peer', run, gone) =
      receive_all_lem sent n base endpoint (concat pieces) first counted many small (omega arith)
        (AreSent-assign n base 0 last packet pieces (omega arith))
        (do_reassembly-assign n 0 last packet pieces) front peer i is few new range distinct
        all_of_them in
    (peer', first, run, same)

module _ (codec : Codec) (max_fragments : ℕ) (packet : LpPacket) (b : ℕ) (bs : List ℕ) (mtu : ℕ)
    (frags : List LpPacket) (last endpoint : ℕ) (peer : Reassembler) where
  IsCut-fragments :
      packet.fragment ≡ some (b ∷ bs)
      → fragment_packet codec max_fragments packet mtu ≡ some (some frags)
      → 1 < length frags
      → (header : ℕ) × IsCut packet (b ∷ bs) header mtu max_fragments frags
  IsCut-fragments h run many =
      cut (fragment_packet-some codec max_fragments packet b bs mtu (some frags) h run)
    where
      cut :
          Explains codec max_fragments packet (b ∷ bs) mtu (some frags)
          → (header : ℕ) × IsCut packet (b ∷ bs) header mtu max_fragments frags
      cut (inl (fits, one)) = absurd (omega (arith, ap length one))
      cut (inr (over, c)) = (first_header_size codec.fragment_type (codec.elements packet), c)

  -- The fragments of a packet that was cut into two pieces or more, numbered and sent to a peer whose
  -- limit is no smaller and that holds no fragment of that message, arrive once each in any order:
  -- only the last arrival returns a message, and that is the payload, with a first fragment that has
  -- the packet's other fields.
  pub receive-fragment_packet :
      (i : ℕ) (is : List ℕ)
      → packet.fragment ≡ some (b ∷ bs)
      → fragment_packet codec max_fragments packet mtu ≡ some (some frags)
      → 1 < length frags
      → max_fragments < 2 ^ 64
      → max_fragments ≤ peer.max_fragments
      → find_partial (endpoint, (last + 1) % 2 ^ 64) peer.partial_packets ≡ none
      → All (λ j. j < length frags) (i ∷ is)
      → AreDistinct (i ∷ is)
      → length frags ≡ suc (length is)
      → (peer' : Reassembler) × (first : LpPacket) × (receive_all peer endpoint
            (map (packet_at (assign_sequences last frags).0) (i ∷ is))
          ≡ some (peer', replicate (length is) none ++ some (b ∷ bs, first) ∷ []))
        × (first.header ≡ packet.header)
  receive-fragment_packet i is h run many bounded fits new range distinct all_of_them =
      let (header, cut) = IsCut-fragments h run many in received cut
    where
      received :
          {header : ℕ}
          → IsCut packet (b ∷ bs) header mtu max_fragments frags
          → (peer' : Reassembler) × (first : LpPacket) × (receive_all peer endpoint
                (map (packet_at (assign_sequences last frags).0) (i ∷ is))
              ≡ some (peer', replicate (length is) none ++ some (b ∷ bs, first) ∷ []))
            × (first.header ≡ packet.header)
      received cut =
          let e = cut.frags_eq in
          let len : length frags ≡ length cut.pieces =
            ap length e ∙ length-stamped 0 (length cut.pieces) packet cut.pieces in
          let few = cut.few in
          let range' = subst (λ n. All (λ j. j < n) (i ∷ is)) len range in
          let (peer', first, run, same) =
            receive-stamped last endpoint peer packet cut.pieces i is (omega arith) (omega arith)
              (omega arith) new range' distinct (omega arith) in
          (
            peer',
            first,
            subst₂
                (λ ps bytes.
                  receive_all peer endpoint (map (packet_at (assign_sequences last ps).0) (i ∷ is))
                  ≡ some (peer', replicate (length is) none ++ some (bytes, first) ∷ []))
                (sym e) cut.whole run,
            same,
          )
