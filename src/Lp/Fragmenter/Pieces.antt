-- ===== src/Lp/Fragmenter/Pieces.antt =====
-- The pieces that the slow path of `fragmentPacket` cuts.
use native.Mathlib.Decide.{dec_lt}
use native.Mathlib.Nat.{mod-eq-sub-mod, mod-eq_of_lt, div-eq_of_lt, div-eq-sub-div}
use mathlib.Core.Path.{subst₂}
use nfd_qo_s.Base.{
  ℕ, zero, suc, ◌+◌, ◌-◌, ◌/◌, ◌%◌, ◌≤◌, ◌<◌, min, ◌≡◌, refl, sym, ap, ◌∙◌, none, some, List, [],
  ◌∷◌, arith, ◌==◌, if◌then◌else◌, length, get_elem?, take, drop, replicate, All, length-take,
  length-drop, All-get_elem?,
}
use nfd_qo_s.Lp.Fragmenter.Chunks.{
  chunks, concat, concat-chunks, stamped, blanks, all_fit, populate-stamped,
}
use nfd_qo_s.Lp.Packet.{LpPacket, blank}
use nfd_qo_s.Lp.Fragmenter.{Codec, max_frag_overhead, frag_count_of, populate}

abbrev rounded_up : ℕ → ℕ → ℕ
rounded_up m p = m / p + (if m % p == 0 then 0 else 1)

rounded_up_none : (p : ℕ) → 0 < p → 0 ≡ rounded_up 0 p
rounded_up_none p h = grind arith

rounded_up_step : (m p : ℕ) → 0 < m → 0 < p → suc (rounded_up (m - p) p) ≡ rounded_up m p
rounded_up_step m p h k = elim (dec_lt m p) [
  | yes less ↦ rw (div-eq_of_lt less, mod-eq_of_lt less) (below less)
  | no more ↦
      let le : p ≤ m = omega arith in rw (div-eq-sub-div k le, mod-eq-sub-mod le) (omega arith)
]
  where
    below : m < p → suc (rounded_up (m - p) p) ≡ 0 + (if m == 0 then 0 else 1)
    below less =
        let none_left : m - p ≡ 0 = omega arith in
        rw none_left (ground (arith, rounded_up_none p k))

length-chunks :
    (fuel p : ℕ) (bytes : List ℕ)
    → 0 < p
    → length bytes ≤ fuel
    → length (chunks fuel p bytes p) ≡ rounded_up (length bytes) p
unfolding chunks
length-chunks fuel p [] h k = rounded_up_none p h
length-chunks zero p (b ∷ bs) h k = absurd (omega arith)
length-chunks (suc fuel) p (b ∷ bs) h k =
    let rest = drop p (b ∷ bs) in
    let len = length-drop p (b ∷ bs) in
    ap suc (length-chunks fuel p rest h (omega arith))
    ∙ rw len (rounded_up_step (length (b ∷ bs)) p (omega arith) h)

chunks-le : (fuel p : ℕ) (bytes : List ℕ) → All (λ c. length c ≤ p) (chunks fuel p bytes p)
unfolding chunks
chunks-le fuel p [] = tt
chunks-le zero p (b ∷ bs) = tt
chunks-le (suc fuel) p (b ∷ bs) =
    (omega (arith, length-take p (b ∷ bs)), chunks-le fuel p (drop p (b ∷ bs)))

blanks-replicate :
    (n : ℕ) (cs : List (List ℕ)) → length cs ≡ n → blanks blank cs ≡ replicate n blank
unfolding blanks
blanks-replicate zero [] h = refl
blanks-replicate zero (c ∷ cs) h = absurd (omega arith)
blanks-replicate (suc n) [] h = absurd (omega arith)
blanks-replicate (suc n) (c ∷ cs) h = ap (◌∷◌ blank) (blanks-replicate n cs (omega arith))

-- `frags` is `packet` cut into pieces: in order their payloads make up the packet's, each carries its
-- index and the number of pieces, the first keeps the packet's other fields and the others have none,
-- and with the overhead no piece is longer than the MTU.
pub record IsCut (packet : LpPacket) (bytes : List ℕ) (header mtu max_fragments : ℕ)
    (frags : List LpPacket) : Type 0 where
  pub pieces : List (List ℕ)
  pub frags_eq : frags ≡ stamped 0 (length pieces) packet pieces
  pub whole : concat pieces ≡ bytes
  pub few : length pieces ≤ max_fragments
  pub first_fits :
      (c : List ℕ) → get_elem? pieces 0 ≡ some c → max_frag_overhead + header + length c ≤ mtu
  pub others_fit :
      (i : ℕ) (c : List ℕ) → get_elem? pieces (suc i) ≡ some c → max_frag_overhead + length c ≤ mtu

-- The slow path, for an MTU with room for an octet of the first fragment: the payload is cut into
-- as many pieces as `fragCount` says.
module _ (max_fragments : ℕ) (packet : LpPacket) (header mtu b : ℕ) (bs : List ℕ)
    (room : max_frag_overhead + header + 1 ≤ mtu) where
  abbrev size : ℕ
  size = length (b ∷ bs)

  abbrev first : ℕ
  first = min size (mtu - header - max_frag_overhead)

  abbrev payload : ℕ
  payload = mtu - max_frag_overhead

  abbrev rest : List ℕ
  rest = drop first (b ∷ bs)

  abbrev others : List (List ℕ)
  others = chunks (length bs) payload rest payload

  abbrev pieces : List (List ℕ)
  pieces = take first (b ∷ bs) ∷ others

  count-others : length others ≡ rounded_up (size - first) payload
  count-others =
      length-chunks (length bs) payload rest (omega arith)
        (omega (arith, length-drop first (b ∷ bs)))
      ∙ rw (length-drop first (b ∷ bs))

  count-pieces : length pieces ≡ frag_count_of size first payload
  unfolding frag_count_of
  count-pieces = omega (arith, count-others)

  all_pieces : chunks size payload (b ∷ bs) first ≡ pieces
  unfolding chunks
  all_pieces = refl

  IsCut-pieces :
      (count : ℕ)
      → count ≡ length pieces
      → length pieces ≤ max_fragments
      → IsCut packet (b ∷ bs) header mtu max_fragments (stamped 0 count packet pieces)
  IsCut-pieces count e h = record {
    pieces = pieces;
    frags_eq = ap (λ n. stamped 0 n packet pieces) e;
    whole =
        ap concat (sym all_pieces)
        ∙ concat-chunks size payload (b ∷ bs) first (omega arith) (omega arith) (omega arith);
    few = h;
    first_fits = λ c at.
        let e : take first (b ∷ bs) ≡ c = cc in
        rw (← e) (omega (arith, length-take first (b ∷ bs)));
    others_fit = λ i c at. omega (
      arith,
      All-get_elem? (λ c. length c ≤ payload) others i c (chunks-le (length bs) payload rest) at,
    );
  }

  vector_eq : blanks packet pieces ≡ packet ∷ replicate (frag_count_of size first payload - 1) blank
  unfolding blanks
  vector_eq = ap (◌∷◌ packet) (blanks-replicate _ others (omega (arith, count-pieces)))

  pub slow_path :
      (codec : Codec)
      → let count = frag_count_of size first payload in
        count ≤ max_fragments
        → (frags : List LpPacket) × (populate codec mtu size count payload
              (packet ∷ replicate (count - 1) blank)
              0
              (b ∷ bs)
              first
            ≡ (if all_fit codec mtu frags then some (frags, count) else none))
          × IsCut packet (b ∷ bs) header mtu max_fragments frags
  slow_path codec h =
      let count = frag_count_of size first payload in
      let run =
        populate-stamped codec mtu size count payload 0 [] packet (b ∷ bs) first refl (omega arith)
          (omega arith) (omega arith) in
      let counted : 0 + length pieces ≡ count = omega (arith, count-pieces) in
      (
        stamped 0 count packet pieces,
        subst₂
              (λ frags cs. populate codec mtu size count payload frags 0 (b ∷ bs) first ≡ (
                if all_fit codec mtu (stamped 0 count packet cs)
                then some (stamped 0 count packet cs, 0 + length cs)
                else none))
              (ap (blanks packet) all_pieces ∙ vector_eq) all_pieces run
            ∙ ap
                (λ n.
                  if all_fit codec mtu (stamped 0 count packet pieces)
                  then some (stamped 0 count packet pieces, n)
                  else none)
                counted,
        IsCut-pieces count (sym count-pieces) (rw count-pieces h),
      )
