-- ===== src/Face/Transport/States.antt =====
-- The state machine of a transport.
use mathlib.Core.Path.{subst}
use nfd_qo_s.Base.{
  ℕ, ◌≡◌, refl, sym, ap, ◌≢◌, ◌⊎◌, inl, inr, Bool, true, false, not, List, [], ◌∷◌, arith, ◌==◌,
  if◌then◌else◌, Bool-cases,
}
use nfd_qo_s.Face.Transport.{
  TransportState, no_state, up, down, closing, failed, closed, Persistency, Output, state_changed,
  thrown, aborted, after_change_persistency, Transport, state_number, persistency_number, is_valid,
  set_state, is_open, close, fits_mtu, send, receive, can_change_persistency_to, set_persistency,
  Event, to_state, close_call, send_call, receive_call, persist, handle, run,
}

-- The transitions that the doc of `setState` names.
pub data Step : TransportState → TransportState → Type 0 where
  up_down : Step up down
  down_up : Step down up
  up_closing : Step up closing
  down_closing : Step down closing
  up_failed : Step up failed
  down_failed : Step down failed
  closing_closed : Step closing closed
  failed_closed : Step failed closed

pub data Reaches : TransportState → TransportState → Type 0 where
  here : {s : TransportState} → Reaches s s
  after : {r s t : TransportState} → Step r s → Reaches s t → Reaches r t

pub Reaches-trans : (r s t : TransportState) → Reaches r s → Reaches s t → Reaches r t
Reaches-trans r s t here later = later
Reaches-trans r s t (after first rest) later = after first (Reaches-trans _ _ _ rest later)

valid-Step : (r s : TransportState) → is_valid r s ≡ true → Step r s
valid-Step up no_state h = cc
valid-Step up up h = cc
valid-Step up down h = up_down
valid-Step up closing h = up_closing
valid-Step up failed h = up_failed
valid-Step up closed h = cc
valid-Step down no_state h = cc
valid-Step down up h = down_up
valid-Step down down h = cc
valid-Step down closing h = down_closing
valid-Step down failed h = down_failed
valid-Step down closed h = cc
valid-Step closing no_state h = cc
valid-Step closing up h = cc
valid-Step closing down h = cc
valid-Step closing closing h = cc
valid-Step closing failed h = cc
valid-Step closing closed h = closing_closed
valid-Step failed no_state h = cc
valid-Step failed up h = cc
valid-Step failed down h = cc
valid-Step failed closing h = cc
valid-Step failed failed h = cc
valid-Step failed closed h = failed_closed
valid-Step closed s h = cc
valid-Step no_state s h = cc

Step-valid :
    {r s : TransportState}
    → Step r s
    → (is_valid r s ≡ true) × ((state_number r == state_number s) ≡ false)
Step-valid up_down = (refl, refl)
Step-valid down_up = (refl, refl)
Step-valid up_closing = (refl, refl)
Step-valid down_closing = (refl, refl)
Step-valid up_failed = (refl, refl)
Step-valid down_failed = (refl, refl)
Step-valid closing_closed = (refl, refl)
Step-valid failed_closed = (refl, refl)

state_number-eq : (r s : TransportState) → state_number r ≡ state_number s → r ≡ s
state_number-eq no_state no_state h = refl
state_number-eq no_state up h = absurd (omega arith)
state_number-eq up no_state h = absurd (omega arith)
state_number-eq no_state down h = absurd (omega arith)
state_number-eq down no_state h = absurd (omega arith)
state_number-eq no_state closing h = absurd (omega arith)
state_number-eq closing no_state h = absurd (omega arith)
state_number-eq no_state failed h = absurd (omega arith)
state_number-eq failed no_state h = absurd (omega arith)
state_number-eq no_state closed h = absurd (omega arith)
state_number-eq closed no_state h = absurd (omega arith)
state_number-eq up up h = refl
state_number-eq up down h = absurd (omega arith)
state_number-eq up closing h = absurd (omega arith)
state_number-eq up failed h = absurd (omega arith)
state_number-eq up closed h = absurd (omega arith)
state_number-eq down up h = absurd (omega arith)
state_number-eq down down h = refl
state_number-eq down closing h = absurd (omega arith)
state_number-eq down failed h = absurd (omega arith)
state_number-eq down closed h = absurd (omega arith)
state_number-eq closing up h = absurd (omega arith)
state_number-eq closing down h = absurd (omega arith)
state_number-eq closing closing h = refl
state_number-eq closing failed h = absurd (omega arith)
state_number-eq closing closed h = absurd (omega arith)
state_number-eq failed up h = absurd (omega arith)
state_number-eq failed down h = absurd (omega arith)
state_number-eq failed closing h = absurd (omega arith)
state_number-eq failed failed h = refl
state_number-eq failed closed h = absurd (omega arith)
state_number-eq closed up h = absurd (omega arith)
state_number-eq closed down h = absurd (omega arith)
state_number-eq closed closing h = absurd (omega arith)
state_number-eq closed failed h = absurd (omega arith)
state_number-eq closed closed h = refl

same_state : (r s : TransportState) → (state_number r == state_number s) ≡ true → r ≡ s
same_state r s h = state_number-eq r s (ground (arith, h))

-- `setState` takes the transitions that its doc names and no other: it changes the state and signals the
-- change on a transition of the doc, does nothing where the state is the same, and else throws and
-- leaves the transport as it was.
pub set_state_lem :
    (new : TransportState) (t : Transport)
    → (Step t.state new
        × (set_state new t ≡ (record t { state = new }, state_changed t.state new ∷ [])))
      ⊎ ((t.state ≡ new) × (set_state new t ≡ (t, [])))
      ⊎ (¬ Step t.state new × (t.state ≢ new) × (set_state new t ≡ (t, thrown ∷ [])))
unfolding set_state
set_state_lem new t = elim (Bool-cases (state_number t.state == state_number new)) [
  | inl same ↦ inr (inl (same_state t.state new same, rw same refl))
  | inr other ↦ elim (Bool-cases (is_valid t.state new)) [
    | inl valid ↦ inl (valid-Step t.state new valid, rw (other, valid) refl)
    | inr invalid ↦ inr (
        inr (
          λ (s : Step t.state new). absurd (ground (arith, invalid, (Step-valid s).0)),
          λ (e : t.state ≡ new). absurd (ground (arith, other, ap state_number e)),
          rw (other, invalid) refl,
        ))
  ]
]

pub state-of_set :
    (new : TransportState) (t : Transport) → Reaches t.state (set_state new t).0.state
state-of_set new t = elim (set_state_lem new t) [
  | inl (step, run) ↦ subst (λ r. Reaches t.state r.0.state) (sym run) (after step here)
  | inr (inl (same, run)) ↦ subst (λ r. Reaches t.state r.0.state) (sym run) here
  | inr (inr (none_such, other, run)) ↦ subst (λ r. Reaches t.state r.0.state) (sym run) here
]

pub state-of_send : (packet : List ℕ) (t : Transport) → (send packet t).0.state ≡ t.state
unfolding send
state-of_send packet t = elim (Bool-cases (fits_mtu packet t.mtu)) [
  | inr large ↦ rw large refl
  | inl fits ↦ elim (Bool-cases (is_open t.state)) [
    | inr shut ↦ rw (fits, shut) refl
    | inl opened ↦ elim (Bool-cases (state_number t.state == 1)) [
      | inl is_up ↦ rw (fits, opened, is_up) refl
      | inr is_down ↦ rw (fits, opened, is_down) refl
    ]
  ]
]

pub state-of_receive : (packet : List ℕ) (t : Transport) → (receive packet t).0.state ≡ t.state
unfolding receive
state-of_receive packet t = elim (Bool-cases (fits_mtu packet t.mtu)) [
  | inr large ↦ rw large refl
  | inl fits ↦ rw fits refl
]

abbrev KeepsState : Transport → Transport × List Output → Type 0
KeepsState t r = r.0.state ≡ t.state

pub state-of_persist :
    (can_change_impl : Persistency → Bool) (p : Persistency) (t : Transport)
    → (set_persistency can_change_impl p t).0.state ≡ t.state
unfolding set_persistency
state-of_persist can_change_impl p t =
    go (can_change_persistency_to can_change_impl p t)
      (persistency_number t.persistency == persistency_number p)
      (persistency_number t.persistency == 0)
  where
    go :
        (can same initial : Bool)
        → KeepsState t (
            if not can
            then (t, aborted ∷ [])
            else if same
            then (t, [])
            else if not initial
            then (record t { persistency = p }, after_change_persistency t.persistency ∷ [])
            else (record t { persistency = p }, []))
    go false same initial = refl
    go true true initial = refl
    go true false false = refl
    go true false true = refl

pub state-of_handle : (e : Event) (t : Transport) → Reaches t.state (handle e t).0.state
unfolding handle close send receive set_persistency
state-of_handle (to_state s) t = state-of_set s t
state-of_handle close_call t = elim (Bool-cases (is_open t.state)) [
  | inl opened ↦ rw opened (state-of_set closing t)
  | inr shut ↦ rw shut here
]
state-of_handle (send_call packet) t =
    subst (λ s. Reaches t.state s) (sym (state-of_send packet t)) here
state-of_handle (receive_call packet) t =
    subst (λ s. Reaches t.state s) (sym (state-of_receive packet t)) here
state-of_handle (persist can_change_impl p) t =
    subst (λ s. Reaches t.state s) (sym (state-of_persist can_change_impl p t)) here

-- Whatever calls a transport gets, its state moves along the transitions of the doc.
pub run-Reaches : (es : List Event) (t : Transport) → Reaches t.state (run es t).0.state
unfolding run
run-Reaches [] t = here
run-Reaches (e ∷ es) t =
    let t' = (handle e t).0 in
    Reaches-trans t.state t'.state (run es t').0.state (state-of_handle e t) (run-Reaches es t')

-- The states from which a transport no longer sends.
abbrev pub IsShut : TransportState → Type 0
IsShut s = is_open s ≡ false

Step-IsShut : {r s : TransportState} → Step r s → IsShut r → IsShut s
Step-IsShut up_down h = cc
Step-IsShut down_up h = cc
Step-IsShut up_closing h = refl
Step-IsShut down_closing h = refl
Step-IsShut up_failed h = refl
Step-IsShut down_failed h = refl
Step-IsShut closing_closed h = refl
Step-IsShut failed_closed h = refl

pub Reaches-IsShut : {r s : TransportState} → Reaches r s → IsShut r → IsShut s
Reaches-IsShut here h = h
Reaches-IsShut (after first rest) h = Reaches-IsShut rest (Step-IsShut first h)
