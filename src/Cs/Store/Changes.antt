-- ===== src/Cs/Store/Changes.antt =====
-- Insertion and erasure make no fault and keep the store in order.
use mathlib.Core.Path.{subst}
use nfd_qo_s.Base.{
  ℕ, zero, suc, ◌+◌, ◌≤◌, ◌<◌, min, ◌≡◌, refl, sym, ap, ◌∙◌, inl, inr, Bool, true, false, not, ◌||◌,
  some, List, [], ◌∷◌, arith, ◌==◌, if◌then◌else◌, Bool-cases, length, take,
}
use nfd_qo_s.Base.Occurs.{occurs}
use nfd_qo_s.Cs.Policy.{Policy, IsPolicy}
use nfd_qo_s.Cs.Store.Invariant.{
  table_handles, handles-put_entry, length-put_entry, erased, Emplaced, emplace_lem,
  occurs-range_of, IsConsistent, IsStore, IsConsistent-erase, length-erase_entry, evict_entries_lem,
}
use nfd_qo_s.Cs.Store.{
  Cs, Emplace, emplace, put_entry, erase_entry, seen, Names, range_of, refreshed, admit, made,
  insert_data, erase_range, erase_data,
}
use nfd_qo_s.Cs.Entry.{Data, Entry, update_stale_time}

take_nil {ℓ} : {A : Type ℓ} (n : ℕ) → take {A = A} n [] ≡ []
take_nil zero = refl
take_nil (suc n) = refl

module _ (p : Policy) (laws : IsPolicy p) where
  -- A known entry is refreshed.
  refresh_entry :
      (now : ℕ) (unsolicited : Bool) (e : Entry) (cs : Cs p)
      → IsStore p laws cs
      → 0 < occurs e.handle (table_handles cs.table)
      → (cs' : Cs p) × (admit p now unsolicited (cs.table, e, false) cs ≡ some cs')
        × IsStore p laws cs'
        × (length cs'.table ≡ length cs.table)
        × (cs'.limit ≡ cs.limit)
  unfolding admit
  refresh_entry now unsolicited e cs s known =
      let c = s.consistent in
      let e' = refreshed p now unsolicited e in
      let same : e'.handle ≡ e.handle = ground arith in
      let one : occurs e'.handle (p.handles cs.policy) ≡ 1 =
        rw same (omega (arith, c.same e.handle, c.once e.handle)) in
      let (policy, run, keeps, kept) = laws.refresh_lem (seen now e') cs.policy c.keeps one in
      let hs = handles-put_entry e' cs.table in
      let len = length-put_entry e' cs.table in
      let cs' = record cs { table = put_entry e' cs.table; policy = policy } in
      (
        cs',
        rw run refl,
        record {
          consistent = record {
            keeps = keeps;
            same = λ i. ap (occurs i) hs ∙ c.same i ∙ sym (kept i);
            once = λ i. omega (arith, ap (occurs i) hs, c.once i);
            unused = λ i new. ap (occurs i) hs ∙ c.unused i new;
          };
          within = omega (arith, len, s.within);
        },
        len,
        refl,
      )

  -- The store before the evictions for a new entry.
  abbrev pub with_entry : ℕ → Entry → List Entry → p.State → Cs p → Cs p
  with_entry now e table policy cs = record cs {
    table = put_entry (update_stale_time now e) table;
    policy = policy;
    next = cs.next + 1;
  }

  pub attach_entry :
      (now : ℕ) (e : Entry) (table : List Entry) (cs : Cs p)
      → IsStore p laws cs
      → e.handle ≡ cs.next
      → ((i : ℕ)
          → occurs i (table_handles table)
            ≡ (if e.handle == i then 1 else 0) + occurs i (table_handles cs.table))
      → (policy : p.State) × (p.attach (seen now (update_stale_time now e)) cs.policy ≡ some policy)
        × IsConsistent p laws (with_entry now e table policy cs)
  attach_entry now e table cs s new counts =
      let c = s.consistent in
      let e' = update_stale_time now e in
      let fresh : occurs e.handle (p.handles cs.policy) ≡ 0 =
        rw new (omega (arith, c.same cs.next, c.unused cs.next (omega arith))) in
      let (policy, run, keeps, kept) = laws.attach_lem (seen now e') cs.policy c.keeps fresh in
      let hs = handles-put_entry e' table in
      (
        policy,
        run,
        record {
          keeps = keeps;
          same = λ i. ap (occurs i) hs ∙ omega (arith, counts i, kept i, c.same i);
          once = λ i. ground (arith, ap (occurs i) hs, counts i, c.once i, c.unused i, new);
          unused =
              λ i later. ap (occurs i) hs ∙ ground (arith, counts i, c.unused i (omega arith), new);
        },
      )

  -- A new entry is kept by the policy, which evicts what the limit does not allow.
  admit_entry :
      (now : ℕ) (unsolicited : Bool) (e : Entry) (table : List Entry) (cs : Cs p)
      → IsStore p laws cs
      → e.handle ≡ cs.next
      → ((i : ℕ)
          → occurs i (table_handles table)
            ≡ (if e.handle == i then 1 else 0) + occurs i (table_handles cs.table))
      → (cs' : Cs p) × (admit p now unsolicited (table, e, true) cs ≡ some cs')
        × IsStore p laws cs'
        × (cs'.limit ≡ cs.limit)
  unfolding admit
  admit_entry now unsolicited e table cs s new counts =
      let (policy, run, c₁) = attach_entry now e table cs s new counts in
      let cs₁ = with_entry now e table policy cs in
      let (cs', rest, store, _, lim) =
        evict_entries_lem p laws (length cs₁.table) cs₁ c₁ (omega arith) in
      (cs', rw run rest, store, lim)

  admit_lem :
      (now : ℕ) (unsolicited : Bool) (e : Entry) (r : Emplace) (cs : Cs p)
      → IsStore p laws cs
      → e.handle ≡ cs.next
      → Emplaced e cs.table r
      → (cs' : Cs p) × (admit p now unsolicited r cs ≡ some cs')
        × IsStore p laws cs'
        × (cs'.limit ≡ cs.limit)
  admit_lem now unsolicited e (es, found, true) cs s new (inl (_, same, counts)) =
      subst
        (λ f.
          (cs' : Cs p) × (admit p now unsolicited (es, f, true) cs ≡ some cs')
          × IsStore p laws cs'
          × (cs'.limit ≡ cs.limit))
        (sym same) (admit_entry now unsolicited e es cs s new counts)
  admit_lem now unsolicited e (es, found, true) cs s new (inr (no_new, _, _)) = cc
  admit_lem now unsolicited e (es, found, false) cs s new (inl (no_old, _, _)) = cc
  admit_lem now unsolicited e (es, found, false) cs s new (inr (_, same, known)) =
      subst
        (λ t.
          (cs' : Cs p) × (admit p now unsolicited (t, found, false) cs ≡ some cs')
          × IsStore p laws cs'
          × (cs'.limit ≡ cs.limit))
        (sym same)
        (let (cs', run, store, _, lim) = refresh_entry now unsolicited found cs s known in
          (cs', run, store, lim))

  -- The insertion of a packet that the store admits is its admission.
  pub insert_data-admit :
      (now : ℕ) (packet : Data) (unsolicited : Bool) (cs : Cs p)
      → (not cs.should_admit || cs.limit == 0) ≡ false
      → packet.no_cache ≡ false
      → insert_data p now packet unsolicited cs
        ≡ admit p now unsolicited (emplace (made p now packet unsolicited cs) cs.table) cs
  unfolding insert_data
  insert_data-admit now packet unsolicited cs admits cached =
      let rest = admit p now unsolicited (emplace (made p now packet unsolicited cs) cs.table) cs in
      ap (λ b. if b then some cs else (if packet.no_cache then some cs else rest)) admits
      ∙ ap (λ b. if b then some cs else rest) cached

  -- On a store in step with its policy and within its limit, `Cs::insert` makes no fault: no
  -- assertion of the policy fails and the evictions end. Afterwards the policy keeps exactly the
  -- entries of the table, and these are within the limit, which stays.
  pub insert_data_lem :
      (now : ℕ) (packet : Data) (unsolicited : Bool) (cs : Cs p)
      → IsStore p laws cs
      → (cs' : Cs p) × (insert_data p now packet unsolicited cs ≡ some cs')
        × IsStore p laws cs'
        × (cs'.limit ≡ cs.limit)
  unfolding insert_data
  insert_data_lem now packet unsolicited cs s =
      elim (Bool-cases (not cs.should_admit || cs.limit == 0)) [
        | inl closed ↦ (cs, rw closed refl, s, refl)
        | inr admits ↦ elim (Bool-cases packet.no_cache) [
          | inl uncached ↦ (cs, rw (admits, uncached) refl, s, refl)
          | inr cached ↦
              let e = made p now packet unsolicited cs in
              let (cs', run, store, lim) =
                admit_lem now unsolicited e (emplace e cs.table) cs s refl
                  (emplace_lem e cs.table) in
              (cs', insert_data-admit now packet unsolicited cs admits cached ∙ run, store, lim)
        ]
      ]

  -- The entries of the table before are those of the table after and the first of the range, each
  -- identifier counted: an erased entry is one of the range, and no other is lost.
  abbrev pub Erases : ℕ → List Entry → Cs p → Cs p → Type 0
  Erases limit range cs cs' =
      (i : ℕ)
      → occurs i (table_handles cs'.table) + occurs i (table_handles (take limit range))
        ≡ occurs i (table_handles cs.table)

  -- The loop of `erase` over entries of the table, each once.
  erase_range_lem :
      (limit : ℕ) (range : List Entry) (cs : Cs p)
      → IsStore p laws cs
      → ((i : ℕ) → occurs i (table_handles range) ≤ occurs i (table_handles cs.table))
      → (cs' : Cs p) × (n : ℕ) × (erase_range p limit range cs ≡ some (cs', n))
        × IsStore p laws cs'
        × (n ≡ min limit (length range))
        × (length cs'.table + n ≡ length cs.table)
        × Erases limit range cs cs'
  unfolding erase_range
  erase_range_lem limit [] cs s within =
      (cs, 0, refl, s, omega arith, omega arith, λ i. rw (take_nil limit) (omega arith))
  erase_range_lem zero (x ∷ range) cs s within =
      (cs, 0, refl, s, omega arith, omega arith, λ i. omega arith)
  erase_range_lem (suc limit) (x ∷ range) cs s within =
      let c = s.consistent in
      let here = within x.handle in
      let (policy, run, keeps, gone) =
        laws.detach_lem x.handle cs.policy c.keeps
          (ground (arith, c.same x.handle, c.once x.handle)) in
      let cs₁ = record cs { table = erase_entry x.handle cs.table; policy = policy } in
      let less = length-erase_entry p laws x.handle cs.table (ground arith) in
      let s₁ : IsStore p laws cs₁ = record {
        consistent = IsConsistent-erase p laws cs x.handle policy c keeps gone;
        within = omega (arith, less, s.within);
      } in
      let (cs', n, rest, store, count, len, lost) =
        erase_range_lem limit range cs₁ s₁
          (λ i. ground (arith, erased x.handle cs.table i, within i, c.once i)) in
      (
        cs',
        n + 1,
        rw (run, rest) refl,
        store,
        omega arith,
        omega arith,
        λ i. ground (arith, erased x.handle cs.table i, within i, c.once i, lost i),
      )

  -- On a store in step with its policy and within its limit, `Cs::erase` makes no fault. It erases
  -- the first entries between the prefix and its successor, as many as the limit allows, and no
  -- other entry, from the table and the policy alike, and returns their number.
  pub erase_data_lem :
      (names : Names) (prefix : List ℕ) (limit : ℕ) (cs : Cs p)
      → IsStore p laws cs
      → (cs' : Cs p) × (n : ℕ) × (erase_data p names prefix limit cs ≡ some (cs', n))
        × IsStore p laws cs'
        × (n ≡ min limit (length (range_of names prefix cs.table)))
        × (length cs'.table + n ≡ length cs.table)
        × Erases limit (range_of names prefix cs.table) cs cs'
  unfolding erase_data
  erase_data_lem names prefix limit cs s =
      erase_range_lem limit (range_of names prefix cs.table) cs s
        (λ i. occurs-range_of i names prefix cs.table)
