-- ===== src/Lp/Fragmenter/Chunks.antt =====
-- The payload is cut into chunks: the first of one length, the others of another.
use mathlib.Core.List.{append_assoc}
use native.Mathlib.Nat.{add-zero}
use nfd_qo_s.Base.{
  ℕ, zero, suc, ◌+◌, ◌≤◌, ◌<◌, ◌≡◌, refl, ap, ◌∙◌, inl, inr, Bool, true, false, ◌&&◌, none, some,
  List, [], ◌∷◌, ◌++◌, arith, leb, if◌then◌else◌, Bool-cases, length, get_elem?, set, take, drop,
  length-append, take-append-drop, length-drop,
}
use nfd_qo_s.Lp.Packet.{LpPacket, blank}
use nfd_qo_s.Lp.Fragmenter.{Codec, stamp, checked, populate}

-- The chunks of a list, with as much fuel as it has elements.
unfoldable pub chunks : ℕ → ℕ → List ℕ → ℕ → List (List ℕ)
chunks fuel payload [] size = []
chunks zero payload (b ∷ bs) size = []
chunks (suc fuel) payload (b ∷ bs) size =
    take size (b ∷ bs) ∷ chunks fuel payload (drop size (b ∷ bs)) payload

unfoldable pub concat : List (List ℕ) → List ℕ
concat [] = []
concat (c ∷ cs) = c ++ concat cs

pub concat-chunks :
    (fuel payload : ℕ) (bytes : List ℕ) (size : ℕ)
    → 0 < size
    → 0 < payload
    → length bytes ≤ fuel
    → concat (chunks fuel payload bytes size) ≡ bytes
unfolding concat chunks
concat-chunks fuel payload [] size s p h = refl
concat-chunks zero payload (b ∷ bs) size s p h = absurd (omega arith)
concat-chunks (suc fuel) payload (b ∷ bs) size s p h =
    rw
      (concat-chunks fuel payload (drop size (b ∷ bs)) payload p p
        (omega (arith, length-drop size (b ∷ bs))))
      (take-append-drop size (b ∷ bs))

-- The packets that the chunks become: the first from the packet given, the others from blank ones.
unfoldable pub stamped : ℕ → ℕ → LpPacket → List (List ℕ) → List LpPacket
stamped index count p [] = []
stamped index count p (c ∷ cs) = stamp index count c p ∷ stamped (index + 1) count blank cs

pub length-stamped :
    (index count : ℕ) (p : LpPacket) (cs : List (List ℕ))
    → length (stamped index count p cs) ≡ length cs
unfolding stamped
length-stamped index count p [] = refl
length-stamped index count p (c ∷ cs) = ap suc (length-stamped (index + 1) count blank cs)

get_elem?-append :
    (xs ys : List LpPacket) (y : LpPacket) → get_elem? (xs ++ y ∷ ys) (length xs) ≡ some y
get_elem?-append [] ys y = refl
get_elem?-append (x ∷ xs) ys y = get_elem?-append xs ys y

set-append :
    (xs ys : List LpPacket) (y z : LpPacket) → set (xs ++ y ∷ ys) (length xs) z ≡ xs ++ z ∷ ys
set-append [] ys y z = refl
set-append (x ∷ xs) ys y z = ap (◌∷◌ x) (set-append xs ys y z)

set-append-at :
    (i : ℕ) (xs ys : List LpPacket) (y z : LpPacket)
    → i ≡ length xs
    → set (xs ++ y ∷ ys) i z ≡ xs ++ z ∷ ys
set-append-at i xs ys y z e = rw e (set-append xs ys y z)

-- The vector of packets that the loop still has to fill: one for each chunk.
unfoldable pub blanks : LpPacket → List (List ℕ) → List LpPacket
blanks p [] = []
blanks p (c ∷ cs) = p ∷ blanks blank cs

-- No assertion on the size of a fragment fails.
unfoldable pub all_fit : Codec → ℕ → List LpPacket → Bool
all_fit codec mtu [] = true
all_fit codec mtu (p ∷ ps) = leb (codec.wire_size p) mtu && all_fit codec mtu ps

module _ (codec : Codec) (mtu : ℕ) where
  populate_step :
      (fuel count payload : ℕ) (frags : List LpPacket) (index b : ℕ) (bs : List ℕ) (size : ℕ)
      (p : LpPacket)
      → get_elem? frags index ≡ some p
      → leb (codec.wire_size (stamp index count (take size (b ∷ bs)) p)) mtu ≡ true
      → populate codec mtu (suc fuel) count payload frags index (b ∷ bs) size
        ≡ populate codec mtu fuel count payload
            (set frags index (stamp index count (take size (b ∷ bs)) p))
            (index + 1)
            (drop size (b ∷ bs))
            payload
  unfolding populate checked
  populate_step fuel count payload frags index b bs size p at fits = rw (at, fits) refl

  populate_over :
      (fuel count payload : ℕ) (frags : List LpPacket) (index b : ℕ) (bs : List ℕ) (size : ℕ)
      (p : LpPacket)
      → get_elem? frags index ≡ some p
      → leb (codec.wire_size (stamp index count (take size (b ∷ bs)) p)) mtu ≡ false
      → populate codec mtu (suc fuel) count payload frags index (b ∷ bs) size ≡ none
  unfolding populate checked
  populate_over fuel count payload frags index b bs size p at over = rw (at, over) refl

  populate_end :
      (fuel count payload index : ℕ) (ready : List LpPacket) (size : ℕ)
      → populate codec mtu fuel count payload (ready ++ []) index [] size
        ≡ some (ready ++ [], index + 0)
  unfolding populate
  populate_end fuel count payload index ready size = rw add-zero

  -- The loop ends with every packet filled, unless one of them is longer than the MTU; no fuel is
  -- missing.
  pub populate-stamped :
      (fuel count payload index : ℕ) (ready : List LpPacket) (p : LpPacket) (bytes : List ℕ)
      (size : ℕ)
      → index ≡ length ready
      → 0 < size
      → 0 < payload
      → length bytes ≤ fuel
      → let cs = chunks fuel payload bytes size in
        populate codec mtu fuel count payload (ready ++ blanks p cs) index bytes size ≡ (
          if all_fit codec mtu (stamped index count p cs)
          then some (ready ++ stamped index count p cs, index + length cs)
          else none)
  unfolding chunks blanks stamped all_fit
  populate-stamped fuel count payload index ready p [] size e s q h =
      populate_end fuel count payload index ready size
  populate-stamped zero count payload index ready p (b ∷ bs) size e s q h = absurd (omega arith)
  populate-stamped (suc fuel) count payload index ready p (b ∷ bs) size e s q h =
      let chunk = take size (b ∷ bs) in
      let rest = drop size (b ∷ bs) in
      let full = stamp index count chunk p in
      let todo = blanks blank (chunks fuel payload rest payload) in
      let ih =
        populate-stamped fuel count payload (index + 1) (ready ++ full ∷ []) blank rest payload
          (omega (arith, length-append ready (full ∷ []))) q q
          (omega (arith, length-drop size (b ∷ bs))) in
      let ih' = simp append_assoc at ih in
      elim (Bool-cases (leb (codec.wire_size full) mtu)) [
        | inl fits ↦
            let step =
              populate_step fuel count payload (ready ++ p ∷ todo) index b bs size p
                (rw e (get_elem?-append ready todo p)) fits in
            let later = stamped (index + 1) count blank (chunks fuel payload rest payload) in
            let len : index + 1 + length (chunks fuel payload rest payload)
                ≡ index + suc (length (chunks fuel payload rest payload)) =
              omega arith in
            rw (step, set-append-at index ready todo p full e, ih', fits)
              (ap (λ n. if all_fit codec mtu later then some (ready ++ full ∷ later, n) else none)
                len)
        | inr over ↦
            populate_over fuel count payload (ready ++ p ∷ todo) index b bs size p
              (rw e (get_elem?-append ready todo p)) over
            ∙ rw over refl
      ]
