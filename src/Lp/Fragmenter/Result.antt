-- ===== src/Lp/Fragmenter/Result.antt =====
-- What `fragmentPacket` returns, on every path.
use mathlib.Core.Path.{subst, ap₂}
use nfd_qo_s.Base.{
  ℕ, suc, ◌+◌, ◌-◌, ◌≤◌, ◌<◌, min, ◌≡◌, refl, sym, ap, ◌∙◌, ◌⊎◌, inl, inr, true, false, ◌||◌,
  Option, none, some, List, [], ◌∷◌, arith, ltb, leb, ◌==◌, if◌then◌else◌, tests, Bool-cases, ◌>>=◌,
  if_true, if_false, length, get_elem?,
}
use nfd_qo_s.Lp.Packet.{LpPacket, blank}
use nfd_qo_s.Lp.Fragmenter.Chunks.{stamped, all_fit}
use nfd_qo_s.Lp.Fragmenter.{
  Codec, max_single_frag_overhead, max_frag_overhead, first_header_size, frag_count_of, stamp,
  fragment_bytes, is_set, fragment_packet,
}
use nfd_qo_s.Lp.Fragmenter.Pieces.{IsCut, slow_path}

-- What a result of `fragmentPacket` for a packet with a payload says. On failure: the MTU has no room
-- for an octet of the first fragment, or the payload takes too many fragments. On success: the packet
-- itself, if it fits with a sequence number, or its pieces.
abbrev pub Explains : Codec → ℕ → LpPacket → List ℕ → ℕ → Option (List LpPacket) → Type 0
Explains codec max_fragments packet bytes mtu none =
    let header = first_header_size codec.fragment_type (codec.elements packet) in
    (mtu < max_single_frag_overhead + codec.wire_size packet)
    × ((mtu < max_frag_overhead + header + 1)
        ⊎ (max_fragments
            < frag_count_of (length bytes) (min (length bytes) (mtu - header - max_frag_overhead))
                (mtu - max_frag_overhead)))
Explains codec max_fragments packet bytes mtu (some frags) =
    let header = first_header_size codec.fragment_type (codec.elements packet) in
    ((max_single_frag_overhead + codec.wire_size packet ≤ mtu) × (frags ≡ packet ∷ []))
    ⊎ ((mtu < max_single_frag_overhead + codec.wire_size packet)
        × IsCut packet bytes header mtu max_fragments frags)

-- A piece is longer than the MTU.
abbrev pub Overflows : Codec → ℕ → LpPacket → List ℕ → ℕ → Type 0
Overflows codec max_fragments packet bytes mtu =
    let header = first_header_size codec.fragment_type (codec.elements packet) in
    (frags : List LpPacket) × IsCut packet bytes header mtu max_fragments frags
    × (all_fit codec mtu frags ≡ false)

abbrev pub Outcome : Codec → ℕ → LpPacket → List ℕ → ℕ → Option (Option (List LpPacket)) → Type 0
Outcome codec max_fragments packet bytes mtu result =
    ((r : Option (List LpPacket)) × (result ≡ some r)
      × Explains codec max_fragments packet bytes mtu r)
    ⊎ ((result ≡ none) × Overflows codec max_fragments packet bytes mtu)

fragment_bytes-Outcome :
    (codec : Codec) (max_fragments : ℕ) (packet : LpPacket) (b : ℕ) (bs : List ℕ) (mtu : ℕ)
    → Outcome codec max_fragments packet
        (b ∷ bs)
        mtu
        (fragment_bytes codec max_fragments packet mtu (b ∷ bs))
unfolding fragment_bytes
fragment_bytes-Outcome codec max_fragments packet b bs mtu =
    let header = first_header_size codec.fragment_type (codec.elements packet) in
    let size : ℕ = length (b ∷ bs) in
    let count : ℕ =
      frag_count_of size (min size (mtu - header - max_frag_overhead)) (mtu - max_frag_overhead) in
    let self : (count == count) ≡ true = ground arith in
    elim (Bool-cases (leb (max_single_frag_overhead + codec.wire_size packet) mtu)) [
      | inl fast ↦ inl (some (packet ∷ []), rw fast refl, inl (omega tests, refl))
      | inr slow ↦ elim (Bool-cases (ltb mtu (max_frag_overhead + header + 1))) [
        | inl small ↦ inl (none, rw (slow, small) refl, (ground arith, inl (omega tests)))
        | inr roomy ↦ elim (Bool-cases (ltb max_fragments count)) [
          | inl many ↦ inl (none, rw (slow, roomy, many) refl, (ground arith, inr (omega tests)))
          | inr few ↦
              let (frags, run, cut) =
                slow_path max_fragments packet header mtu b bs (ground arith) codec
                  (ground arith) in
              elim (Bool-cases (all_fit codec mtu frags)) [
                | inl fits ↦
                    let run' = run ∙ if_true _ _ fits in
                    inl
                      (some frags, rw (slow, roomy, few, run', self) refl, inr (ground arith, cut))
                | inr over ↦
                    let run' = run ∙ if_false _ _ over in
                    inr (rw (slow, roomy, few, run') refl, (frags, cut, over))
              ]
        ]
      ]
    ]

-- What the fragmenter relies on of the encoder of ndn-cxx: a fragment is no longer than its payload,
-- the packet's other elements and the greatest sizes of the type and length of the LpPacket and its
-- Fragment and of the Sequence, FragIndex and FragCount elements, which `MAX_FRAG_OVERHEAD` adds up.
-- A packet without fields has no other elements.
pub record IsEncoder (codec : Codec) : Type 0 where
  pub piece_size :
      (index count : ℕ) (bytes : List ℕ) (p : LpPacket)
      → p.frag_index ≡ none
      → p.frag_count ≡ none
      → codec.wire_size (stamp index count bytes p)
        ≤ max_frag_overhead
          + first_header_size codec.fragment_type (codec.elements p)
          + length bytes
  pub blank_elements : first_header_size codec.fragment_type (codec.elements blank) ≡ 0

module _ (codec : Codec) (law : IsEncoder codec) (mtu : ℕ) where
  others-all_fit :
      (index count : ℕ) (cs : List (List ℕ))
      → ((i : ℕ) (c : List ℕ) → get_elem? cs i ≡ some c → max_frag_overhead + length c ≤ mtu)
      → all_fit codec mtu (stamped index count blank cs) ≡ true
  unfolding all_fit stamped
  others-all_fit index count [] h = refl
  others-all_fit index count (c ∷ cs) h =
      let later = others-all_fit (index + 1) count cs (λ i d at. h (suc i) d at) in
      let one : leb (codec.wire_size (stamp index count c blank)) mtu ≡ true =
        ground
          (arith, law.piece_size index count c blank refl refl, law.blank_elements, h 0 c refl) in
      rw (one, later) refl

  IsCut-all_fit :
      (max_fragments : ℕ) (packet : LpPacket) (bytes : List ℕ) (frags : List LpPacket)
      → packet.frag_index ≡ none
      → packet.frag_count ≡ none
      → IsCut packet bytes
          (first_header_size codec.fragment_type (codec.elements packet))
          mtu
          max_fragments
          frags
      → all_fit codec mtu frags ≡ true
  unfolding all_fit stamped
  IsCut-all_fit max_fragments packet bytes frags no_index no_count cut =
      rw cut.frags_eq (go (length cut.pieces) cut.pieces cut.first_fits cut.others_fit)
    where
      go :
          (n : ℕ) (cs : List (List ℕ))
          → ((c : List ℕ)
              → get_elem? cs 0 ≡ some c
              → max_frag_overhead
                  + first_header_size codec.fragment_type (codec.elements packet)
                  + length c
                ≤ mtu)
          → ((i : ℕ) (c : List ℕ)
              → get_elem? cs (suc i) ≡ some c
              → max_frag_overhead + length c ≤ mtu)
          → all_fit codec mtu (stamped 0 n packet cs) ≡ true
      go n [] first others = refl
      go n (c ∷ cs) first others =
          let later = others-all_fit 1 n cs others in
          let one : leb (codec.wire_size (stamp 0 n c packet)) mtu ≡ true =
            ground (arith, law.piece_size 0 n c packet no_index no_count, first c refl) in
          rw (one, later) refl

fragment_packet-bytes :
    (codec : Codec) (max_fragments : ℕ) (packet : LpPacket) (bytes : List ℕ) (mtu : ℕ)
    → packet.fragment ≡ some bytes
    → fragment_packet codec max_fragments packet mtu ≡ (
        if is_set packet.frag_index || is_set packet.frag_count
        then none
        else fragment_bytes codec max_fragments packet mtu bytes)
unfolding fragment_packet
fragment_packet-bytes codec max_fragments packet bytes mtu h =
    ap
      (λ o. o >>= λ found.
        if is_set packet.frag_index || is_set packet.frag_count
        then none
        else fragment_bytes codec max_fragments packet mtu found)
      h

-- A result is as `Explains` says, over any encoder.
pub fragment_packet-some :
    (codec : Codec) (max_fragments : ℕ) (packet : LpPacket) (b : ℕ) (bs : List ℕ) (mtu : ℕ)
    (r : Option (List LpPacket))
    → packet.fragment ≡ some (b ∷ bs)
    → fragment_packet codec max_fragments packet mtu ≡ some r
    → Explains codec max_fragments packet (b ∷ bs) mtu r
fragment_packet-some codec max_fragments packet b bs mtu r h run =
    let bytes_run = fragment_packet-bytes codec max_fragments packet (b ∷ bs) mtu h in
    elim (Bool-cases (is_set packet.frag_index || is_set packet.frag_count)) [
      | inl has_one ↦ let fault = sym run ∙ bytes_run ∙ if_true _ _ has_one in absurd (cc)
      | inr fresh ↦
          let run' = sym (bytes_run ∙ if_false _ _ fresh) ∙ run in
          elim (fragment_bytes-Outcome codec max_fragments packet b bs mtu) [
            | inl (r', run'', why) ↦
                let same : r' ≡ r = cc in
                subst (Explains codec max_fragments packet (b ∷ bs) mtu) same why
            | inr (fault, over) ↦ absurd (cc)
          ]
    ]

-- `fragmentPacket` makes no fault on a packet with a payload of an octet at least and neither
-- FragIndex nor FragCount, over an encoder as `IsEncoder` says: no index leaves the vector, no
-- assertion fails, the loop ends, and the result is what `Explains` says.
pub fragment_packet-Explains :
    (codec : Codec) (max_fragments : ℕ) (packet : LpPacket) (b : ℕ) (bs : List ℕ) (mtu : ℕ)
    → IsEncoder codec
    → packet.fragment ≡ some (b ∷ bs)
    → packet.frag_index ≡ none
    → packet.frag_count ≡ none
    → (r : Option (List LpPacket)) × (fragment_packet codec max_fragments packet mtu ≡ some r)
      × Explains codec max_fragments packet (b ∷ bs) mtu r
fragment_packet-Explains codec max_fragments packet b bs mtu law h no_index no_count =
    let fresh : (is_set packet.frag_index || is_set packet.frag_count) ≡ false =
      ap₂ (λ i n. is_set i || is_set n) no_index no_count in
    let bytes_run =
      fragment_packet-bytes codec max_fragments packet (b ∷ bs) mtu h ∙ if_false _ _ fresh in
    elim (fragment_bytes-Outcome codec max_fragments packet b bs mtu) [
      | inl (r, run, why) ↦ (r, bytes_run ∙ run, why)
      | inr (fault, (frags, cut, over)) ↦
          let fits =
            IsCut-all_fit codec law mtu max_fragments packet (b ∷ bs) frags no_index no_count cut in
          absurd (cc)
    ]
