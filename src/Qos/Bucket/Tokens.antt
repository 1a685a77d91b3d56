-- ===== src/Qos/Bucket/Tokens.antt =====
-- What the two operations of a token bucket do to the counts, the flag and the signals.
use mathlib.Core.Bool.{and_assoc, or_assoc}
use nfd_qo_s.Base.{
  ℕ, zero, suc, ◌≡◌, refl, sym, ap, ◌∙◌, Bool, true, false, not, ◌&&◌, ◌||◌, List, [], ◌∷◌, map,
  arith, ◌==◌, if◌then◌else◌, all, any,
}
use nfd_qo_s.Base.Int.{ℤ, pos, ◌+ℤ◌, ◌-ℤ◌, ◌≤ℤ◌, le_ℤ, +ℤ_parts, -ℤ_parts, int_laws}
use nfd_qo_s.Base.Assoc.{lookup_or, lookup_or-insert}
use nfd_qo_s.Qos.Bucket.{
  TokenBucket, touch_need, is_zero, refill, add_token, tokens_at, consume_token,
}

-- One token more, up to the capacity.
abbrev pub top_up : ℤ → ℤ → ℤ
top_up capacity count = if le_ℤ capacity count then count else count +ℤ pos 1

abbrev top_up_entry : ℤ → ℕ × ℤ → ℕ × ℤ
top_up_entry capacity e = (e.0, top_up capacity e.1)

-- The face waits for tokens and has enough of them once topped up.
abbrev pub is_served : ℤ → List (ℕ × ℤ) → ℕ × ℤ → Bool
is_served capacity need e =
    not (is_zero (lookup_or (pos 0) e.0 need))
    && le_ℤ (lookup_or (pos 0) e.0 need) (top_up capacity e.1)

touch_need_lem :
    (face k : ℕ) (need : List (ℕ × ℤ))
    → lookup_or (pos 0) k (touch_need face need) ≡ lookup_or (pos 0) k need
unfolding touch_need
touch_need_lem face k need =
    ground (arith, lookup_or-insert (pos 0) face k (lookup_or (pos 0) face need) need)

record Refilled (cap : ℤ) (ts n₀ n : List (ℕ × ℤ)) (a c : Bool) : Type 0 where
  tokens : (refill cap ts n a c).tokens ≡ map (top_up_entry cap) ts
  need : (k : ℕ) → lookup_or (pos 0) k (refill cap ts n a c).need ≡ lookup_or (pos 0) k n₀
  at_capacity : (refill cap ts n a c).at_capacity ≡ (a && all (λ e. le_ℤ cap e.1) ts)
  call_send : (refill cap ts n a c).call_send ≡ (c || any (is_served cap n₀) ts)

refill-Refilled :
    (cap : ℤ) (ts n₀ n : List (ℕ × ℤ)) (a c : Bool)
    → ((k : ℕ) → lookup_or (pos 0) k n ≡ lookup_or (pos 0) k n₀)
    → Refilled cap ts n₀ n a c
unfolding refill
refill-Refilled cap [] n₀ n a c h = record {
  tokens = refl;
  need = h;
  at_capacity = ground arith;
  call_send = ground arith;
}
refill-Refilled cap ((face, count) ∷ ts) n₀ n a c h =
    let ih =
      refill-Refilled cap ts n₀ (touch_need face n) (a && le_ℤ cap count)
        (c || is_served cap n (face, count)) (λ k. touch_need_lem face k n ∙ h k) in
    record {
      tokens = ap (◌∷◌ (face, top_up cap count)) ih.tokens;
      need = ih.need;
      at_capacity = ih.at_capacity ∙ and_assoc a (le_ℤ cap count) _;
      call_send = ih.call_send ∙ rw (h face) (or_assoc c (is_served cap n₀ (face, count)) _);
    }

-- `addToken` gives each known face one token up to the capacity, keeps what each face needs, sets
-- the at-capacity flag exactly when every known face was full already, and emits `send` exactly
-- when some face with a need has enough tokens now.
pub add_token_lem :
    (b : TokenBucket)
    → let r = add_token b in
      (r.0.tokens ≡ map (top_up_entry b.capacity) b.tokens)
      × ((k : ℕ) → lookup_or (pos 0) k r.0.need ≡ lookup_or (pos 0) k b.need)
      × (r.0.at_capacity ≡ all (λ e. le_ℤ b.capacity e.1) b.tokens)
      × (r.1 ≡ any (is_served b.capacity b.need) b.tokens)
      × (r.0.capacity ≡ b.capacity)
unfolding add_token
add_token_lem b =
    let r = refill-Refilled b.capacity b.tokens b.need b.need true false (λ k. refl) in
    (r.tokens, r.need, r.at_capacity, r.call_send, refl)

lookup_or-map :
    (cap d : ℤ) (face : ℕ) (ts : List (ℕ × ℤ))
    → top_up cap d ≡ d
    → lookup_or d face (map (top_up_entry cap) ts) ≡ top_up cap (lookup_or d face ts)
unfolding lookup_or
lookup_or-map cap d face [] h = sym h
lookup_or-map cap d face ((k, count) ∷ ts) h = ground (arith, lookup_or-map cap d face ts)

pub tokens_at-add_token :
    (face : ℕ) (b : TokenBucket)
    → tokens_at face (add_token b).0 ≡ top_up b.capacity (tokens_at face b)
unfolding tokens_at
tokens_at-add_token face b =
    let r = add_token_lem b in
    rw (r.0, r.4) (lookup_or-map b.capacity b.capacity face b.tokens (ground arith))

pub tokens_at-consume_token :
    (count : ℤ) (face k : ℕ) (b : TokenBucket)
    → tokens_at k (consume_token count face b).0
      ≡ (if face == k then tokens_at face b -ℤ count else tokens_at k b)
unfolding tokens_at consume_token
tokens_at-consume_token count face k b =
    lookup_or-insert b.capacity face k (tokens_at face b -ℤ count) b.tokens

top_up_bounds :
    (cap z : ℤ)
    → z ≤ℤ cap
    → (z ≤ℤ top_up cap z) × (top_up cap z ≤ℤ z +ℤ pos 1) × (top_up cap z ≤ℤ cap)
top_up_bounds cap z h = ground (arith, +ℤ_parts z (pos 1))

abbrev pub HasRoom : TokenBucket → Type 0
HasRoom b = (face : ℕ) → tokens_at face b ≤ℤ b.capacity

-- No face ever holds more than the capacity: refilling keeps the bound, never takes a token away
-- and adds at most one; so does consuming a number of tokens that is not negative, which takes them
-- from the one face and leaves the others.
pub add_consume-HasRoom :
    (b : TokenBucket) (count face : ℕ)
    → HasRoom b
    → HasRoom (add_token b).0
      × ((k : ℕ)
          → (tokens_at k b ≤ℤ tokens_at k (add_token b).0)
            × (tokens_at k (add_token b).0 ≤ℤ tokens_at k b +ℤ pos 1))
      × HasRoom (consume_token (pos count) face b).0
      × (tokens_at face (consume_token (pos count) face b).0 ≡ tokens_at face b -ℤ pos count)
unfolding add_token consume_token
add_consume-HasRoom b count face h = (
  λ k. rw (tokens_at-add_token k b) (top_up_bounds b.capacity (tokens_at k b) (h k)).2,
  λ k.
      rw (tokens_at-add_token k b)
        (let t = top_up_bounds b.capacity (tokens_at k b) (h k) in (t.0, t.1)),
  λ k. rw (tokens_at-consume_token (pos count) face k b) (consumed k),
  rw (tokens_at-consume_token (pos count) face face b) (ground arith),
)
  where
    consumed :
        (k : ℕ) → (if face == k then tokens_at face b -ℤ pos count else tokens_at k b) ≤ℤ b.capacity
    consumed k = ground (arith, h k, h face, -ℤ_parts (tokens_at face b) (pos count))

pub add_tokens : ℕ → TokenBucket → TokenBucket
add_tokens zero b = b
add_tokens (suc n) b = add_tokens n (add_token b).0

add_tokens-climb :
    (n face : ℕ) (b : TokenBucket)
    → tokens_at face b +ℤ pos n ≤ℤ b.capacity
    → tokens_at face (add_tokens n b) ≡ tokens_at face b +ℤ pos n
unfolding add_tokens
add_tokens-climb zero face b h = omega int_laws
add_tokens-climb (suc n) face b h =
    add_tokens-climb n face (add_token b).0 (rw (step, (add_token_lem b).4) (omega int_laws))
    ∙ rw step (omega int_laws)
  where
    step : tokens_at face (add_token b).0 ≡ tokens_at face b +ℤ pos 1
    step = rw (tokens_at-add_token face b) (
        ground
          (arith, +ℤ_parts (tokens_at face b) (pos (suc n)), +ℤ_parts (tokens_at face b) (pos 1)))

-- Consuming tokens and refilling as often gives the face its count again, for a face within the
-- capacity.
pub add_tokens-consume_token :
    (n face : ℕ) (b : TokenBucket)
    → HasRoom b
    → tokens_at face (add_tokens n (consume_token (pos n) face b).0) ≡ tokens_at face b
unfolding consume_token
add_tokens-consume_token n face b h =
    add_tokens-climb n face (consume_token (pos n) face b).0 (rw left (omega (int_laws, h face)))
    ∙ rw left (omega int_laws)
  where
    left : tokens_at face (consume_token (pos n) face b).0 ≡ tokens_at face b -ℤ pos n
    left = tokens_at-consume_token (pos n) face face b ∙ ground arith
