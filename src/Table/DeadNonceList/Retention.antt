-- ===== src/Table/DeadNonceList/Retention.antt =====
-- How long a nonce is kept.
use mathlib.Core.List.{append_assoc}
use nfd_qo_s.Base.{
  ℕ, zero, suc, ◌+◌, ◌-◌, ◌≤◌, ◌<◌, min, ◌≡◌, refl, ap, ◌∙◌, inl, inr, Bool, true, ◌||◌, List, [],
  ◌∷◌, ◌++◌, arith, leb, ◌==◌, tests, Bool-cases, length, drop, any, length-append,
}
use nfd_qo_s.Table.DeadNonceList.{
  mark_entry, evict_limit, Params, DeadNonceList, has, evict_entries, add, mark,
}

drop-append : (n : ℕ) (xs ys : List ℕ) → n ≤ length xs → drop n (xs ++ ys) ≡ drop n xs ++ ys
drop-append zero xs ys h = refl
drop-append (suc n) [] ys h = absurd (omega arith)
drop-append (suc n) (x ∷ xs) ys h = drop-append n xs ys (omega arith)

-- The entry is in the queue with `n` entries behind it at most.
abbrev Keeps : ℕ → ℕ → DeadNonceList → Type 0
Keeps entry n l =
    (before : List ℕ) × (behind : List ℕ) × (l.queue ≡ before ++ entry ∷ behind)
    × (length behind ≤ n)

Keeps-evict :
    (entry n : ℕ) (l : DeadNonceList)
    → n < l.capacity
    → Keeps entry n l
    → Keeps entry n (evict_entries l)
unfolding evict_entries
Keeps-evict entry n l h (before, behind, e, k) =
    let len = ap length e ∙ length-append before (entry ∷ behind) in
    let gone : ℕ = min (length l.queue - l.capacity) evict_limit in
    elim (Bool-cases (leb (length l.queue) l.capacity)) [
      | inl small ↦ rw small (before, behind, e, k)
      | inr over ↦ rw over (
        drop gone before,
        behind,
        ap (drop gone) e ∙ drop-append gone before (entry ∷ behind) (omega (tests, len)),
        k,
      )
    ]

Keeps-weaken : (entry m n : ℕ) (l : DeadNonceList) → m ≤ n → Keeps entry m l → Keeps entry n l
Keeps-weaken entry m n l h (before, behind, e, k) = (before, behind, e, omega arith)

Keeps-push :
    (entry n x : ℕ) (l : DeadNonceList)
    → Keeps entry n l
    → Keeps entry (n + 1) (record l { queue = l.queue ++ x ∷ [] })
Keeps-push entry n x l (before, behind, e, k) = (
  before,
  behind ++ x ∷ [],
  rw e (append_assoc before (entry ∷ behind) (x ∷ [])),
  omega (arith, length-append behind (x ∷ [])),
)

any-append : (test : ℕ → Bool) (xs ys : List ℕ) → any test (xs ++ ys) ≡ (any test xs || any test ys)
any-append test [] ys = refl
any-append test (x ∷ xs) ys = ground (arith, any-append test xs ys)

-- What happens to the list between two adjustments of its capacity.
pub data Event : Type 0 where
  added : List ℕ → ℕ → Event
  marked : Event

unfoldable pub run : Params → List Event → DeadNonceList → DeadNonceList
run params [] l = l
run params (added name nonce ∷ es) l = run params es (add params name nonce l)
run params (marked ∷ es) l = run params es (mark l)

capacity-evict : (l : DeadNonceList) → (evict_entries l).capacity ≡ l.capacity
unfolding evict_entries
capacity-evict l = ground arith

Keeps-run :
    (params : Params) (entry n : ℕ) (es : List Event) (l : DeadNonceList)
    → n + length es < l.capacity
    → Keeps entry n l
    → Keeps entry (n + length es) (run params es l)
unfolding run add mark
Keeps-run params entry n [] l h kept = Keeps-weaken entry n (n + 0) l (omega arith) kept
Keeps-run params entry n (added name nonce ∷ es) l h kept =
    let x = params.hash name nonce in
    let l₁ = record l { queue = l.queue ++ x ∷ [] } in
    let same = capacity-evict l₁ in
    Keeps-weaken entry (n + 1 + length es) (n + suc (length es)) (run params es (evict_entries l₁))
      (omega arith)
      (Keeps-run params entry (n + 1) es (evict_entries l₁) (omega arith)
        (Keeps-evict entry (n + 1) l₁ (omega arith) (Keeps-push entry n x l kept)))
Keeps-run params entry n (marked ∷ es) l h kept =
    Keeps-weaken entry (n + 1 + length es) (n + suc (length es)) (run params es (mark l))
      (omega arith)
      (Keeps-run params entry (n + 1) es (mark l) (omega arith)
        (Keeps-push entry n mark_entry l kept))

has-Keeps :
    (params : Params) (n : ℕ) (l : DeadNonceList) (name : List ℕ) (nonce : ℕ)
    → Keeps (params.hash name nonce) n l
    → has params l name nonce ≡ true
unfolding has
has-Keeps params n l name nonce (before, behind, e, k) =
    let test : ℕ → Bool = λ x. x == params.hash name nonce in
    ap (any test) e ∙ any-append test before (params.hash name nonce ∷ behind) ∙ ground arith

-- A nonce that was added is found as long as fewer other nonces and marks than the capacity came
-- after it and the capacity was not adjusted.
pub has-run_add :
    (params : Params) (l : DeadNonceList) (name : List ℕ) (nonce : ℕ) (es : List Event)
    → length es < l.capacity
    → has params (run params es (add params name nonce l)) name nonce ≡ true
unfolding add
has-run_add params l name nonce es h =
    let entry = params.hash name nonce in
    let l₁ = record l { queue = l.queue ++ entry ∷ [] } in
    let same = capacity-evict l₁ in
    has-Keeps params (0 + length es) (run params es (evict_entries l₁)) name nonce (
      Keeps-run params entry 0 es (evict_entries l₁) (omega arith)
        (Keeps-evict entry 0 l₁ (omega arith) (l.queue, [], refl, omega arith)))
