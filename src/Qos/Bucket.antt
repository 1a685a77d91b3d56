-- ===== src/Qos/Bucket.antt =====
-- `TokenBucket` of daemon/fw/ndn-token-bucket.hpp and ndn-token-bucket.cpp. The token counts are
-- `double`s that start at the integer capacity and move by whole numbers, so they are integers here.
-- A signal that is emitted is a Boolean of the result.
pub mod Tokens
use nfd_qo_s.Base.{
  ℕ, ◌+◌, ◌≡◌, Bool, true, false, ◌&&◌, ◌||◌, not, Option, none, some, List, [], ◌∷◌, if◌then◌else◌,
}
use nfd_qo_s.Base.Int.{ℤ, pos, ◌+ℤ◌, ◌-ℤ◌, le_ℤ}
use nfd_qo_s.Base.Assoc.{lookup, insert, lookup_or}

pub record TokenBucket : Type 0 where
  pub has_faces : Bool
  pub at_capacity : Bool
  pub tokens : List (ℕ × ℤ)
  pub need : List (ℕ × ℤ)
  pub capacity : ℤ

abbrev pub new_bucket : TokenBucket
new_bucket = record {
  has_faces = false;
  at_capacity = false;
  tokens = [];
  need = [];
  capacity = pos 0;
}

-- `need` with the zero that `m_need[face]` makes for a missing key.
touch_need : ℕ → List (ℕ × ℤ) → List (ℕ × ℤ)
touch_need face need = insert face (lookup_or (pos 0) face need) need

abbrev is_zero : ℤ → Bool
is_zero z = le_ℤ z (pos 0) && le_ℤ (pos 0) z

pub record Refill : Type 0 where
  pub tokens : List (ℕ × ℤ)
  pub need : List (ℕ × ℤ)
  pub at_capacity : Bool
  pub call_send : Bool

-- The loop of `addToken` over the faces of `m_tokens`. The entry that is visited is the one that
-- `m_tokens[itt->first]` names, the keys being distinct.
refill : ℤ → List (ℕ × ℤ) → List (ℕ × ℤ) → Bool → Bool → Refill
unfolding touch_need
refill capacity [] need at_capacity call_send = record {
  tokens = [];
  need = need;
  at_capacity = at_capacity;
  call_send = call_send;
}
refill capacity ((face, count) ∷ rest) need at_capacity call_send =
    let full = le_ℤ capacity count in
    let count' = if full then count else count +ℤ pos 1 in
    let wanted = lookup_or (pos 0) face need in
    let r =
      refill capacity rest (touch_need face need) (at_capacity && full)
        (call_send || (not (is_zero wanted) && le_ℤ wanted count')) in
    record r { tokens = (face, count') ∷ r.tokens }

-- The bucket afterwards, and whether `send` was emitted.
unfoldable pub add_token : TokenBucket → TokenBucket × Bool
unfolding refill
add_token b =
    let r = refill b.capacity b.tokens b.need true false in
    (record b { tokens = r.tokens; need = r.need; at_capacity = r.at_capacity }, r.call_send)

-- The tokens that a face has; the first use of a face gives it a full bucket.
unfoldable pub tokens_at : ℕ → TokenBucket → ℤ
unfolding lookup_or
tokens_at face b = lookup_or b.capacity face b.tokens

-- The bucket afterwards, and whether `noLongerAtCapacity` was emitted.
unfoldable pub consume_token : ℤ → ℕ → TokenBucket → TokenBucket × Bool
unfolding tokens_at
consume_token count face b = (
  record b { tokens = insert face (tokens_at face b -ℤ count) b.tokens; at_capacity = false },
  b.at_capacity,
)
