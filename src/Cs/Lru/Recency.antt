-- ===== src/Cs/Lru/Recency.antt =====
-- The content store with the LRU policy keeps its entries by the time of their last use.
use mathlib.Core.Path.{subst, ap₂}
use nfd_qo_s.Base.{
  ℕ, zero, suc, ◌+◌, ◌-◌, ◌≤◌, ◌≡◌, refl, sym, ap, ◌∙◌, inl, inr, Bool, true, false, not, ◌||◌,
  some, List, [], ◌∷◌, ◌++◌, arith, leb, ◌==◌, if◌then◌else◌, tests, Bool-cases, length, drop,
}
use nfd_qo_s.Base.Occurs.{occurs, erase}
use nfd_qo_s.Cs.Store.{
  Cs, Emplace, emplace, put_entry, erase_entry, seen, evict_entries, refreshed, admit, made,
  insert_data,
}
use nfd_qo_s.Cs.Store.Invariant.{
  table_handles, length-put_entry, Emplaced, emplace_lem, length-emplace, IsConsistent, IsStore,
  evict-fits, evict_round,
}
use nfd_qo_s.Cs.Lru.{insert_to_queue, pop_front, lru, lru-IsPolicy}
use nfd_qo_s.Cs.Entry.{Data, Entry, update_stale_time}
use nfd_qo_s.Cs.Store.Changes.{with_entry, attach_entry, insert_data-admit}

-- The abstract view: the entries in the order of their last use. A use moves an entry to the end, and
-- a new entry goes there, while the first ones make room.
abbrev pub touch : ℕ → List ℕ → List ℕ
touch i queue = erase i queue ++ i ∷ []

abbrev pub admit_last : ℕ → ℕ → List ℕ → List ℕ
admit_last excess i queue = drop excess (queue ++ i ∷ [])

pop_front-eq : (queue rest : List ℕ) (v : ℕ) → pop_front queue ≡ some (v, rest) → queue ≡ v ∷ rest
unfolding pop_front
pop_front-eq [] rest v h = cc
pop_front-eq (i ∷ queue) rest v h = cc

-- The loop of `evictEntries` takes the first entries of the queue.
evict_first :
    (fuel : ℕ) (cs : Cs lru)
    → IsConsistent lru lru-IsPolicy cs
    → length cs.table ≤ fuel
    → (cs' : Cs lru) × (evict_entries lru fuel cs ≡ some cs')
      × (cs'.policy ≡ drop (length cs.table - cs.limit) cs.policy)
unfolding evict_entries
evict_first zero cs c h =
    let none_over : length cs.table - cs.limit ≡ 0 = omega arith in
    (cs, evict-fits lru lru-IsPolicy zero cs (ground arith), rw none_over refl)
evict_first (suc fuel) cs c h = elim (Bool-cases (leb (length cs.table) cs.limit)) [
  | inl fits ↦
      let none_over : length cs.table - cs.limit ≡ 0 = omega tests in
      (cs, evict-fits lru lru-IsPolicy (suc fuel) cs fits, rw none_over refl)
  | inr over ↦
      let (v, queue, run, c', less) = evict_round lru lru-IsPolicy cs c (ground arith) in
      let (cs', rest, first) =
        evict_first fuel (record cs { table = erase_entry v cs.table; policy = queue }) c'
          (omega arith) in
      let one_more : length cs.table - cs.limit ≡ suc (length (erase_entry v cs.table) - cs.limit) =
        ground arith in
      (
        cs',
        rw (over, run) rest,
        first
            ∙ sym (
                ap (drop (length cs.table - cs.limit)) (pop_front-eq cs.policy queue v run)
                ∙ rw one_more refl),
      )
]

push_back-eq :
    (h : ℕ) (queue queue' : List ℕ)
    → insert_to_queue h true queue ≡ some queue'
    → queue' ≡ queue ++ h ∷ []
unfolding insert_to_queue
push_back-eq h queue queue' run = ground (arith, run)

move-eq :
    (h : ℕ) (queue queue' : List ℕ)
    → insert_to_queue h false queue ≡ some queue'
    → queue' ≡ touch h queue
unfolding insert_to_queue
move-eq h queue queue' run = ground (arith, run)

-- The recency queue after `emplace` has answered.
abbrev pub after_insert : Emplace → Cs lru → List ℕ
after_insert (table, e, is_new) cs =
    if is_new
    then admit_last (length cs.table + 1 - cs.limit) cs.next cs.policy
    else touch e.handle cs.policy

admit_recency :
    (now : ℕ) (unsolicited : Bool) (e : Entry) (r : Emplace) (cs : Cs lru)
    → IsStore lru lru-IsPolicy cs
    → e.handle ≡ cs.next
    → Emplaced e cs.table r
    → (r.2 ≡ true → length r.0 ≡ length cs.table + 1)
    → (cs' : Cs lru) × (admit lru now unsolicited r cs ≡ some cs')
      × (cs'.policy ≡ after_insert r cs)
unfolding admit
admit_recency now unsolicited e (table, found, true) cs s new (inl (_, same, counts)) more =
    let at_next : found.handle ≡ cs.next = ap (λ f. f.handle) same ∙ new in
    let counts' =
      subst
        (λ f.
          (i : ℕ)
          → occurs i (table_handles table)
            ≡ (if f.handle == i then 1 else 0) + occurs i (table_handles cs.table))
        (sym same) counts in
    let (policy, run, c) = attach_entry lru lru-IsPolicy now found table cs s at_next counts' in
    let cs₁ = with_entry lru lru-IsPolicy now found table policy cs in
    let (cs', rest, first) = evict_first (length cs₁.table) cs₁ c (omega arith) in
    let len : length cs₁.table ≡ length cs.table + 1 =
      length-put_entry (update_stale_time now found) table ∙ more refl in
    let queue : policy ≡ cs.policy ++ cs.next ∷ [] =
      push_back-eq found.handle cs.policy policy run ∙ ap (λ h. cs.policy ++ h ∷ []) at_next in
    (cs', rw run rest, first ∙ ap₂ drop (ap (λ n. n - cs.limit) len) queue)
admit_recency now unsolicited e (table, found, true) cs s new (inr (no_new, _, _)) more = cc
admit_recency now unsolicited e (table, found, false) cs s new (inl (no_old, _, _)) more = cc
admit_recency now unsolicited e (table, found, false) cs s new (inr (_, same, known)) more =
    let c = s.consistent in
    let e' = refreshed lru now unsolicited found in
    let stays : e'.handle ≡ found.handle = ground arith in
    let one : occurs e'.handle cs.policy ≡ 1 =
      rw stays (omega (arith, c.same found.handle, c.once found.handle)) in
    let (policy, run, _, _) = lru-IsPolicy.refresh_lem (seen now e') cs.policy c.keeps one in
    (
      record cs { table = put_entry e' table; policy = policy },
      rw run refl,
      move-eq e'.handle cs.policy policy run ∙ ap (λ h. touch h cs.policy) stays,
    )

-- With the LRU policy, on a store in step with it, a Data that the store admits goes to the end of
-- the recency queue: a new one as a new entry, for which the first entries are evicted that are
-- over the limit, and a known one by moving its entry.
pub insert_data-recency :
    (now : ℕ) (packet : Data) (unsolicited : Bool) (cs : Cs lru)
    → IsStore lru lru-IsPolicy cs
    → (not cs.should_admit || cs.limit == 0) ≡ false
    → packet.no_cache ≡ false
    → (cs' : Cs lru) × (insert_data lru now packet unsolicited cs ≡ some cs')
      × (cs'.policy ≡ after_insert (emplace (made lru now packet unsolicited cs) cs.table) cs)
insert_data-recency now packet unsolicited cs s admits cached =
    let e = made lru now packet unsolicited cs in
    let (cs', run, queue) =
      admit_recency now unsolicited e (emplace e cs.table) cs s refl (emplace_lem e cs.table)
        (length-emplace e cs.table) in
    (cs', insert_data-admit lru lru-IsPolicy now packet unsolicited cs admits cached ∙ run, queue)
