-- ===== src/Lp/Reassembler/AnyOrder.antt =====
-- All fragments of a message arrive, in any order.
use mathlib.Core.Option
use nfd_qo_s.Base.{
  ℕ, suc, ◌^◌, ◌≤◌, ◌<◌, ◌≡◌, refl, ◌∙◌, ◌≢◌, false, Option, none, some, List, [], ◌∷◌, ◌++◌, map,
  arith, ◌>>=◌, length, get_elem?, set, replicate, All, get_elem?-set_ne, get_elem?_of_lt,
  get_elem?-replicate,
}
use nfd_qo_s.Lp.Packet.{LpPacket, blank}
use nfd_qo_s.Lp.Reassembler.{
  find_partial, Message, Reassembler, do_reassembly, has_sequence, receive_fragment,
}
use nfd_qo_s.Lp.Reassembler.Slots.{
  missing, AreSent, IsFilling, IsFilling-blank, IsFilling-set, missing-blank, IsHolding,
  IsHolding-blank, receive_new, receive_last,
}

unfoldable pub receive_all :
    Reassembler → ℕ → List LpPacket → Option (Reassembler × List (Option Message))
receive_all r endpoint [] = some (r, [])
receive_all r endpoint (p ∷ ps) = do
  (r', m) ← receive_fragment r endpoint p
  (r'', ms) ← receive_all r' endpoint ps
  some (r'', m ∷ ms)

abbrev pub packet_at : List LpPacket → ℕ → LpPacket
packet_at frags i = Option.get_or (get_elem? frags i) blank

-- No index occurs twice.
abbrev pub AreDistinct : List ℕ → Type 0
AreDistinct [] = Unit
AreDistinct (i ∷ is) = All (λ j. i ≢ j) is × AreDistinct is

-- The slot is there and waits for its fragment.
abbrev IsWaiting : List LpPacket → ℕ → Type 0
IsWaiting slots i = (s : LpPacket) × (get_elem? slots i ≡ some s) × (has_sequence s ≡ false)

IsWaiting-set :
    (slots : List LpPacket) (i : ℕ) (p : LpPacket) (is : List ℕ)
    → All (λ j. i ≢ j) is
    → All (IsWaiting slots) is
    → All (IsWaiting (set slots i p)) is
IsWaiting-set slots i p [] d w = tt
IsWaiting-set slots i p (j ∷ is) d w =
    ((w.0.0, get_elem?-set_ne slots i j p d.0 ∙ w.0.1, w.0.2), IsWaiting-set slots i p is d.1 w.1)

module _ (frags : List LpPacket) (n base endpoint : ℕ) (bytes : List ℕ) (first : LpPacket)
    (counted : n ≡ length frags) (many : 1 < n) (small : n < 2 ^ 64) (start : base < 2 ^ 64)
    (are_sent : AreSent n base 0 frags) (whole : do_reassembly frags ≡ some bytes)
    (front : get_elem? frags 0 ≡ some first) where
  abbrev Arrive : Reassembler → ℕ → List ℕ → Type 0
  Arrive r i is =
      (r' : Reassembler) × (receive_all r endpoint (map (packet_at frags) (i ∷ is))
        ≡ some (r', replicate (length is) none ++ some (bytes, first) ∷ []))
      × (find_partial (endpoint, base) r'.partial_packets ≡ none)

  arrive :
      (r : Reassembler) (slots : List LpPacket) (i : ℕ) (is : List ℕ)
      → n ≤ r.max_fragments
      → IsFilling frags slots
      → IsHolding r (endpoint, base) n slots
      → All (λ j. j < n) (i ∷ is)
      → AreDistinct (i ∷ is)
      → All (IsWaiting slots) (i ∷ is)
      → missing slots ≡ suc (length is)
      → Arrive r i is
  unfolding receive_all
  arrive r slots i [] few filling held range distinct waiting left =
      let (p, at) = get_elem?_of_lt frags i (omega arith) in
      let (s, e, h) = waiting.0 in
      let (r', run, gone) =
        receive_last frags n base endpoint r slots counted many few small start are_sent filling
          held i p at s bytes first e h left whole front in
      (r', rw (at, run), gone)
  arrive r slots i (j ∷ js) few filling held range distinct waiting left =
      let (p, at) = get_elem?_of_lt frags i (omega arith) in
      let (s, e, h) = waiting.0 in
      let (r₁, run, held₁, less, same) =
        receive_new frags n base endpoint r slots counted many few small start are_sent filling held
          i p at s e h (omega arith) in
      let (r', runs, gone) =
        arrive r₁ (set slots i p) j js (omega arith) (IsFilling-set frags slots i p filling at)
          held₁ range.1 distinct.1 (IsWaiting-set slots i p (j ∷ js) distinct.0 waiting.1)
          (omega arith) in
      (r', rw (at, run, runs), gone)

  IsWaiting-blank : (is : List ℕ) → All (λ j. j < n) is → All (IsWaiting (replicate n blank)) is
  unfolding has_sequence
  IsWaiting-blank [] range = tt
  IsWaiting-blank (i ∷ is) range =
      ((blank, get_elem?-replicate n i blank range.0, refl), IsWaiting-blank is range.1)

  -- When the fragments of a message of two fragments or more arrive once each, in any order, at a
  -- reassembler that holds none of them and whose limit they respect, every arrival but the last
  -- returns nothing, and the last returns the payloads joined in the order of the indices, with the
  -- first fragment. The partial packet is gone then.
  pub receive_all_lem :
      (r : Reassembler) (i : ℕ) (is : List ℕ)
      → n ≤ r.max_fragments
      → find_partial (endpoint, base) r.partial_packets ≡ none
      → All (λ j. j < n) (i ∷ is)
      → AreDistinct (i ∷ is)
      → n ≡ suc (length is)
      → Arrive r i is
  receive_all_lem r i is few new range distinct all_of_them =
      arrive r (replicate n blank) i is few (rw counted (IsFilling-blank frags))
        (IsHolding-blank r (endpoint, base) n new (omega arith)) range distinct
        (IsWaiting-blank (i ∷ is) range) (missing-blank n ∙ all_of_them)
