-- ===== src/Lp/Reassembler/Slots.antt =====
-- One fragment of a message that is being reassembled: which slots are filled, and what its arrival
-- does.
use mathlib.Core.Path.{ap₂}
use nfd_qo_s.Base.{
  ℕ, zero, suc, ◌+◌, ◌%◌, ◌^◌, ◌≤◌, ◌<◌, ◌≡◌, refl, ap, ◌∙◌, ◌⊎◌, inl, inr, true, false, none, some,
  List, [], ◌∷◌, arith, ◌==◌, if◌then◌else◌, length, get_elem?, set, replicate, lt_of_get_elem?,
}
use nfd_qo_s.Lp.Packet.{LpPacket, blank}
use nfd_qo_s.Lp.Reassembler.{
  PartialPacket, Key, find_partial, put_partial, erase_partial, Reassembler, do_reassembly,
  message_of, open_partial, has_sequence, add_fragment, receive_fragment,
}

find-put :
    (m : List (Key × PartialPacket)) (k j : Key) (pp : PartialPacket)
    → k ≡ j
    → find_partial j (put_partial k pp m) ≡ some pp
unfolding find_partial put_partial
find-put [] k j pp e = rw e (ground arith)
find-put ((i, old) ∷ m) k j pp e = ground (arith, find-put m k j pp e)

find-erase : (m : List (Key × PartialPacket)) (k : Key) → find_partial k (erase_partial k m) ≡ none
unfolding find_partial erase_partial
find-erase [] k = refl
find-erase ((i, pp) ∷ m) k = ground (arith, find-erase m k)

-- The slots that still wait for their fragment.
unfoldable pub missing : List LpPacket → ℕ
missing [] = 0
missing (s ∷ ss) = (if has_sequence s then 0 else 1) + missing ss

-- The packets of one message: each says its place and the number of them, and their sequence
-- numbers follow on one another.
abbrev pub AreSent : ℕ → ℕ → ℕ → List LpPacket → Type 0
AreSent n base i [] = Unit
AreSent n base i (p ∷ ps) =
    (p.frag_index ≡ some i)
    × (p.frag_count ≡ some n)
    × (p.sequence ≡ some ((base + i) % 2 ^ 64))
    × AreSent n base (i + 1) ps

-- Each slot is blank or holds the packet of its place.
abbrev pub IsFilling : List LpPacket → List LpPacket → Type 0
IsFilling [] [] = Unit
IsFilling (p ∷ ps) (s ∷ ss) = ((s ≡ blank) ⊎ (s ≡ p)) × IsFilling ps ss
IsFilling _ _ = ⊥

pub IsFilling-blank : (ps : List LpPacket) → IsFilling ps (replicate (length ps) blank)
IsFilling-blank [] = tt
IsFilling-blank (p ∷ ps) = (inl refl, IsFilling-blank ps)

pub IsFilling-set :
    (ps ss : List LpPacket) (i : ℕ) (p : LpPacket)
    → IsFilling ps ss
    → get_elem? ps i ≡ some p
    → IsFilling ps (set ss i p)
IsFilling-set [] [] i p h e = tt
IsFilling-set [] (s ∷ ss) i p h e = absurd h
IsFilling-set (q ∷ ps) [] i p h e = absurd h
IsFilling-set (q ∷ ps) (s ∷ ss) zero p h e = (inr cc, h.1)
IsFilling-set (q ∷ ps) (s ∷ ss) (suc i) p h e = (h.0, IsFilling-set ps ss i p h.1 e)

pub missing-blank : (n : ℕ) → missing (replicate n blank) ≡ n
unfolding missing has_sequence
missing-blank zero = refl
missing-blank (suc n) = omega (arith, missing-blank n)

missing-set :
    (ss : List LpPacket) (i : ℕ) (s p : LpPacket)
    → get_elem? ss i ≡ some s
    → has_sequence s ≡ false
    → has_sequence p ≡ true
    → missing (set ss i p) + 1 ≡ missing ss
unfolding missing
missing-set [] i s p e b h = cc
missing-set (q ∷ ss) zero s p e b h = ground arith
missing-set (q ∷ ss) (suc i) s p e b h = omega (arith, missing-set ss i s p e b h)

-- With no slot missing, the slots are the packets of the message.
all_filled : (ps ss : List LpPacket) → IsFilling ps ss → missing ss ≡ 0 → ss ≡ ps
unfolding missing has_sequence
all_filled [] [] h e = refl
all_filled [] (s ∷ ss) h e = absurd h
all_filled (p ∷ ps) [] h e = absurd h
all_filled (p ∷ ps) (s ∷ ss) h e = elim h.0 [
  | inl b ↦ absurd (omega (arith, ap (λ q. missing (q ∷ ss)) b))
  | inr f ↦ ap₂ ◌∷◌ f (all_filled ps ss h.1 (omega arith))
]

AreSent-at :
    (n base i j : ℕ) (ps : List LpPacket) (p : LpPacket)
    → AreSent n base i ps
    → get_elem? ps j ≡ some p
    → (p.frag_index ≡ some (i + j))
      × (p.frag_count ≡ some n)
      × (p.sequence ≡ some ((base + (i + j)) % 2 ^ 64))
AreSent-at n base i j [] p a e = cc
AreSent-at n base i zero (q ∷ ps) p a e = ground arith
AreSent-at n base i (suc j) (q ∷ ps) p a e =
    let r = AreSent-at n base (i + 1) j ps p a.3 e in
    let same : i + 1 + j ≡ i + suc j = omega arith in rw (← same) r

message_of-sent :
    (base index : ℕ)
    → base < 2 ^ 64
    → index < 2 ^ 64
    → message_of ((base + index) % 2 ^ 64) index ≡ base
unfolding message_of
message_of-sent base index b h = omega arith

-- The partial packet of a message, or the one that its first fragment opens.
abbrev pub current : Reassembler → Key → ℕ → PartialPacket
current r key n = open_partial n (find_partial key r.partial_packets)

-- It holds the slots, and has counted those that are filled.
pub record IsHolding (r : Reassembler) (key : Key) (n : ℕ) (slots : List LpPacket) : Type 0 where
  pub fragments : (current r key n).fragments ≡ slots
  pub frag_count : (current r key n).frag_count ≡ n
  pub counted : (current r key n).n_received + missing slots ≡ n

IsHolding-put :
    (r : Reassembler) (key : Key) (n : ℕ) (pp : PartialPacket) (slots : List LpPacket)
    → 0 < n
    → pp.fragments ≡ slots
    → pp.frag_count ≡ n
    → pp.n_received + missing slots ≡ n
    → IsHolding (record r { partial_packets = put_partial key pp r.partial_packets }) key n slots
unfolding open_partial
IsHolding-put r key n pp slots pos f c m =
    let found = find-put r.partial_packets key key pp refl in
    record {
      fragments = ground (arith, found);
      frag_count = ground (arith, found);
      counted = ground (arith, found);
    }

pub IsHolding-blank :
    (r : Reassembler) (key : Key) (n : ℕ)
    → find_partial key r.partial_packets ≡ none
    → 0 < n
    → IsHolding r key n (replicate n blank)
unfolding open_partial
IsHolding-blank r key n new pos = record {
  fragments = ground arith;
  frag_count = ground arith;
  counted = ground (arith, missing-blank n);
}

module _ (frags : List LpPacket) (n base endpoint : ℕ) (r : Reassembler) (slots : List LpPacket)
    (counted : n ≡ length frags) (many : 1 < n) (few : n ≤ r.max_fragments) (small : n < 2 ^ 64)
    (start : base < 2 ^ 64) (are_sent : AreSent n base 0 frags) (filling : IsFilling frags slots)
    (held : IsHolding r (endpoint, base) n slots) (i : ℕ) (p : LpPacket)
    (at : get_elem? frags i ≡ some p) where
  -- A fragment with these fields goes to the partial packet of its message.
  receive-add : receive_fragment r endpoint p ≡ add_fragment r (endpoint, base) i n p
  unfolding receive_fragment
  receive-add =
      let (index, count, sequence) = AreSent-at n base 0 i frags p are_sent at in
      let bound = lt_of_get_elem? frags i p at in
      ground (arith, message_of-sent base i start (omega arith))

  abbrev key : Key
  key = (endpoint, base)

  abbrev pp : PartialPacket
  pp = current r key n

  abbrev filled : PartialPacket
  filled = record pp { fragments = set pp.fragments i p; n_received = pp.n_received + 1 }

  add_duplicate :
      (s : LpPacket)
      → get_elem? slots i ≡ some s
      → has_sequence s ≡ true
      → add_fragment r key i n p
        ≡ some (record r { partial_packets = put_partial key pp r.partial_packets }, none)
  unfolding add_fragment
  add_duplicate s e h = ground (arith, held.fragments, held.frag_count)

  add_new :
      (s : LpPacket)
      → get_elem? slots i ≡ some s
      → has_sequence s ≡ false
      → (pp.n_received + 1 == n) ≡ false
      → add_fragment r key i n p
        ≡ some (
          record r {
            partial_packets =
                put_partial key (record filled { drop_timer = true }) r.partial_packets;
          },
          none,
        )
  unfolding add_fragment
  add_new s e h m = ground (arith, held.fragments, held.frag_count)

  add_last :
      (s : LpPacket) (bytes : List ℕ) (first : LpPacket)
      → get_elem? slots i ≡ some s
      → has_sequence s ≡ false
      → (pp.n_received + 1 == n) ≡ true
      → do_reassembly (set slots i p) ≡ some bytes
      → get_elem? (set slots i p) 0 ≡ some first
      → add_fragment r key i n p
        ≡ some (
          record r { partial_packets = erase_partial key r.partial_packets },
          some (bytes, first),
        )
  unfolding add_fragment
  add_last s bytes first e h m d f = ground (arith, held.fragments, held.frag_count)

  has_sequence-sent : has_sequence p ≡ true
  unfolding has_sequence
  has_sequence-sent = ground (arith, AreSent-at n base 0 i frags p are_sent at)

  -- A fragment that was received before changes nothing.
  pub receive_duplicate :
      (s : LpPacket)
      → get_elem? slots i ≡ some s
      → has_sequence s ≡ true
      → (r' : Reassembler) × (receive_fragment r endpoint p ≡ some (r', none))
        × IsHolding r' (endpoint, base) n slots
        × (r'.max_fragments ≡ r.max_fragments)
  receive_duplicate s e h = (
    record r { partial_packets = put_partial key pp r.partial_packets },
    receive-add ∙ add_duplicate s e h,
    IsHolding-put r key n pp slots (omega arith) held.fragments held.frag_count held.counted,
    refl,
  )

  pub receive_new :
      (s : LpPacket)
      → get_elem? slots i ≡ some s
      → has_sequence s ≡ false
      → 1 < missing slots
      → (r' : Reassembler) × (receive_fragment r endpoint p ≡ some (r', none))
        × IsHolding r' (endpoint, base) n (set slots i p)
        × (missing (set slots i p) + 1 ≡ missing slots)
        × (r'.max_fragments ≡ r.max_fragments)
  receive_new s e h m =
      let less = missing-set slots i s p e h has_sequence-sent in
      (
        record r {
          partial_packets = put_partial key (record filled { drop_timer = true }) r.partial_packets;
        },
        receive-add ∙ add_new s e h (ground (arith, held.counted)),
        IsHolding-put r key n (record filled { drop_timer = true }) (set slots i p) (omega arith)
            (ap (λ ss. set ss i p) held.fragments) held.frag_count (omega (arith, held.counted)),
        less,
        refl,
      )

  pub receive_last :
      (s : LpPacket) (bytes : List ℕ) (first : LpPacket)
      → get_elem? slots i ≡ some s
      → has_sequence s ≡ false
      → missing slots ≡ 1
      → do_reassembly frags ≡ some bytes
      → get_elem? frags 0 ≡ some first
      → (r' : Reassembler) × (receive_fragment r endpoint p ≡ some (r', some (bytes, first)))
        × (find_partial (endpoint, base) r'.partial_packets ≡ none)
  receive_last s bytes first e h m d f =
      let less = missing-set slots i s p e h has_sequence-sent in
      let full =
        all_filled frags (set slots i p) (IsFilling-set frags slots i p filling at) (omega arith) in
      (
        record r { partial_packets = erase_partial key r.partial_packets },
        receive-add
            ∙ add_last s bytes first e h (ground (arith, held.counted)) (rw full d) (rw full f),
        find-erase r.partial_packets key,
      )
