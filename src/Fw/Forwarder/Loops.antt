-- ===== src/Fw/Forwarder/Loops.antt =====
-- An Interest that comes back after its PIT entry is gone is caught by the dead nonce list.
use nfd_qo_s.Base.{
  ℕ, suc, ◌+◌, ◌≤◌, ◌<◌, ◌≡◌, refl, sym, ap, ◌∙◌, inl, inr, true, false, not, ◌&&◌, none, some,
  List, [], ◌∷◌, ◌++◌, arith, if◌then◌else◌, if_true, if_false, length, Any, length-append,
}
use mathlib.Core.Path.{subst}
use nfd_qo_s.Table.DeadNonceList.Retention.{Event, added, marked, run, has-run_add}
use nfd_qo_s.Fw.Forwarder.{
  add_nonces, emit, needs_dead_nonces, insert_dead_nonce_list, on_interest_loop,
  on_incoming_interest, on_interest_finalize,
}
use nfd_qo_s.Table.Pit.{OutRecord, in_face}
use nfd_qo_s.Table.DeadNonceList.{Params, DeadNonceList, has, add, mark}
use nfd_qo_s.Table.DeadNonceList.Capacity.{add_lem}
use nfd_qo_s.Fw.World.{Incoming, count_up, signal_expire, World, Env}

abbrev events : List ℕ → List OutRecord → List Event
events name [] = []
events name (r ∷ rs) = added name r.base.last_nonce ∷ events name rs

length-events : (name : List ℕ) (rs : List OutRecord) → length (events name rs) ≡ length rs
length-events name [] = refl
length-events name (r ∷ rs) = ap suc (length-events name rs)

add_nonces-run :
    (params : Params) (name : List ℕ) (rs : List OutRecord) (l : DeadNonceList)
    → add_nonces params name rs l ≡ run params (events name rs) l
unfolding add_nonces run
add_nonces-run params name [] l = refl
add_nonces-run params name (r ∷ rs) l =
    add_nonces-run params name rs (add params name r.base.last_nonce l)

run-append :
    (params : Params) (es fs : List Event) (l : DeadNonceList)
    → run params (es ++ fs) l ≡ run params fs (run params es l)
unfolding run
run-append params [] fs l = refl
run-append params (added name nonce ∷ es) fs l = run-append params es fs (add params name nonce l)
run-append params (marked ∷ es) fs l = run-append params es fs (mark l)

capacity-add :
    (params : Params) (name : List ℕ) (nonce : ℕ) (l : DeadNonceList)
    → (add params name nonce l).capacity ≡ l.capacity
capacity-add params name nonce l = (add_lem params name nonce l).0

has-add_nonces :
    (params : Params) (name : List ℕ) (nonce : ℕ) (rs : List OutRecord) (l : DeadNonceList)
    (es : List Event)
    → Any (λ r. r.base.last_nonce ≡ nonce) rs
    → length rs + length es ≤ l.capacity
    → has params (run params es (add_nonces params name rs l)) name nonce ≡ true
unfolding add_nonces
has-add_nonces params name nonce [] l es found h = absurd found
has-add_nonces params name nonce (r ∷ rs) l es (inl same) h =
    let later = events name rs ++ es in
    let few : length later < l.capacity =
      omega (arith, length-append (events name rs) es, length-events name rs) in
    let l' = add params name r.base.last_nonce l in
    subst (λ n. has params (run params es (add_nonces params name rs l')) name n ≡ true) same
      (ap (λ m. has params m name r.base.last_nonce)
          (ap (run params es) (add_nonces-run params name rs l')
            ∙ sym (run-append params (events name rs) es l'))
        ∙ has-run_add params l name r.base.last_nonce later few)
has-add_nonces params name nonce (r ∷ rs) l es (inr found) h =
    has-add_nonces params name nonce rs (add params name r.base.last_nonce l) es found
      (omega (arith, capacity-add params name r.base.last_nonce l))

module _ {S : Type 0} (env : Env S) where
  abbrev pub counted : World S → World S
  counted w = record w {
    counters = record w.counters { n_in_interests = count_up w.counters.n_in_interests };
  }

  insert-nonces :
      (w : World S)
      → w.pending.entry.is_satisfied ≡ false
      → (insert_dead_nonce_list env none w).dead_nonces
        ≡ add_nonces env.dnl w.pending.entry.interest.name w.pending.entry.out_records w.dead_nonces
  unfolding insert_dead_nonce_list
  insert-nonces w open_still =
      let nonces =
        add_nonces env.dnl w.pending.entry.interest.name w.pending.entry.out_records
          w.dead_nonces in
      let needed : needs_dead_nonces env w.pending ≡ true = rw open_still refl in
      ap (λ b. (if not b then w else record w { dead_nonces = nonces }).dead_nonces) needed

  finalize-nonces :
      (w : World S)
      → w.pending.entry.is_satisfied ≡ false
      → (on_interest_finalize env w).dead_nonces
        ≡ add_nonces env.dnl w.pending.entry.interest.name w.pending.entry.out_records w.dead_nonces
  unfolding on_interest_finalize
  finalize-nonces w open_still =
      ap
        (λ b.
          (insert_dead_nonce_list env none
            (if not b then emit env signal_expire w else w)).dead_nonces)
        open_still
      ∙ insert-nonces (emit env signal_expire w) open_still

  listed-loop :
      (now in_face : ℕ) (i : Incoming) (w : World S)
      → (not (env.faces in_face).is_local && env.is_localhost i.interest.name) ≡ false
      → has env.dnl w.dead_nonces i.interest.name i.interest.nonce ≡ true
      → on_incoming_interest env now in_face i w ≡ some (on_interest_loop env in_face i (counted w))
  unfolding on_incoming_interest
  listed-loop now in_face i w allowed listed = if_false _ _ allowed ∙ if_true _ _ listed

  -- Once an unsatisfied PIT entry is finalized, an Interest of its name that carries the nonce of one of
  -- its out-records is treated as a loop, as long as the out-records and what entered the dead nonce
  -- list since are no more than its capacity. (The name is allowed on the face.)
  pub on_interest_finalize-loop :
      (w w' : World S) (es : List Event) (now in_face : ℕ) (i : Incoming)
      → w.pending.entry.is_satisfied ≡ false
      → Any (λ r. r.base.last_nonce ≡ i.interest.nonce) w.pending.entry.out_records
      → length w.pending.entry.out_records + length es ≤ w.dead_nonces.capacity
      → w'.dead_nonces ≡ run env.dnl es (on_interest_finalize env w).dead_nonces
      → i.interest.name ≡ w.pending.entry.interest.name
      → (not (env.faces in_face).is_local && env.is_localhost i.interest.name) ≡ false
      → on_incoming_interest env now in_face i w'
        ≡ some (on_interest_loop env in_face i (counted w'))
  on_interest_finalize-loop w w' es now in_face i open_still found few since name allowed =
      listed-loop now in_face i w' allowed (
        ap (λ l. has env.dnl l i.interest.name i.interest.nonce)
          (since ∙ ap (run env.dnl es) (finalize-nonces w open_still))
        ∙ ap
            (λ n.
              has env.dnl
                (run env.dnl es (
                  add_nonces env.dnl w.pending.entry.interest.name w.pending.entry.out_records
                    w.dead_nonces))
                n i.interest.nonce)
            name
        ∙ has-add_nonces env.dnl w.pending.entry.interest.name i.interest.nonce
            w.pending.entry.out_records w.dead_nonces es found few)
