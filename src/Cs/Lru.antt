-- ===== src/Cs/Lru.antt =====
-- `LruPolicy` of daemon/table/cs-policy-lru.cpp.
pub mod Recency
use nfd_qo_s.Base.{
  ℕ, ◌≤◌, ◌≡◌, refl, Bool, true, false, Option, none, some, List, [], ◌∷◌, ◌++◌, arith, ◌==◌,
  if◌then◌else◌,
}
use nfd_qo_s.Base.Occurs.{occurs, erase, occurs-append, occurs-erase}
use nfd_qo_s.Cs.Policy.{Policy, IsPolicy}

-- `insertToQueue`: the sequence has each iterator once, and `push_back` of one that is there changes
-- nothing. `none` is the failed assertion on `isNewEntry`.
unfoldable pub insert_to_queue : ℕ → Bool → List ℕ → Option (List ℕ)
insert_to_queue i is_new_entry queue =
    if occurs i queue == 0
    then (if is_new_entry then some (queue ++ i ∷ []) else none)
    else (if is_new_entry then none else some (erase i queue ++ i ∷ []))

unfoldable pub pop_front : List ℕ → Option (ℕ × List ℕ)
pop_front [] = none
pop_front (i ∷ queue) = some (i, queue)

abbrev pub lru : Policy
lru = record {
  State = List ℕ;
  start = [];
  handles = λ queue. queue;
  attach = λ e. insert_to_queue e.handle true;
  refresh = λ e. insert_to_queue e.handle false;
  detach = λ i queue. some (erase i queue);
  use_entry = λ i. insert_to_queue i false;
  evict_one = pop_front;
}

move_lem :
    (h : ℕ) (queue : List ℕ)
    → occurs h queue ≡ 1
    → (queue' : List ℕ) × (insert_to_queue h false queue ≡ some queue')
      × Unit {0}
      × ((i : ℕ) → occurs i queue' ≡ occurs i queue)
unfolding insert_to_queue
move_lem h queue one = (
  erase h queue ++ h ∷ [],
  ground (arith, one),
  tt,
  λ i. ground (arith, occurs-append i (erase h queue) (h ∷ []), occurs-erase h i queue, one),
)

-- The queue of the LRU policy meets the laws of a policy.
pub lru-IsPolicy : IsPolicy lru
unfolding insert_to_queue pop_front
lru-IsPolicy = record {
  Keeps = λ queue. Unit;
  start_keeps = tt;
  start_empty = λ i. refl;
  attach_lem = λ e queue k none_yet. (
    queue ++ e.handle ∷ [],
    ground (arith, none_yet),
    tt,
    λ i. omega (arith, occurs-append i queue (e.handle ∷ [])),
  );
  refresh_lem = λ e queue k one. move_lem e.handle queue one;
  detach_lem =
      λ h queue k one. (erase h queue, refl, tt, λ i. ground (arith, occurs-erase h i queue, one));
  use_lem = λ h queue k one. move_lem h queue one;
  evict_lem = λ h queue k few one. pop h queue few one;
}
  where
    pop :
        (h : ℕ) (queue : List ℕ)
        → ((i : ℕ) → occurs i queue ≤ 1)
        → occurs h queue ≡ 1
        → (v : ℕ) × (queue' : List ℕ) × (pop_front queue ≡ some (v, queue'))
          × Unit {0}
          × (occurs v queue ≡ 1)
          × ((i : ℕ) → occurs i queue' ≡ (if v == i then 0 else occurs i queue))
    pop h [] few one = absurd (omega arith)
    pop h (v ∷ queue) few one =
        let once = few v in (v, queue, refl, tt, ground (arith, once), λ i. ground (arith, once))

-- The policy asks nothing of its queue between two operations.
pub lru-Keeps : (queue : List ℕ) → lru-IsPolicy.Keeps queue
unfolding lru-IsPolicy
lru-Keeps queue = tt
