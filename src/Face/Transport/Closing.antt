-- ===== src/Face/Transport/Closing.antt =====
-- A transport that is closed, or being closed, sends nothing.
use mathlib.Core.Path.{subst}
use nfd_qo_s.Base.{
  ℕ, ◌≡◌, refl, sym, ◌∙◌, inl, inr, Bool, true, false, not, List, [], ◌∷◌, ◌++◌, ◌==◌,
  if◌then◌else◌, Bool-cases, All,
}
use nfd_qo_s.Face.Transport.{
  TransportState, no_state, up, down, closing, failed, closed, Persistency, Output, state_changed,
  thrown, aborted, do_close, do_send, receive_packet, after_change_persistency, Transport,
  persistency_number, set_state, close, fits_mtu, send, receive, can_change_persistency_to,
  set_persistency, Event, to_state, close_call, send_call, receive_call, persist, handle, run,
}
use nfd_qo_s.Face.Transport.States.{
  set_state_lem, state-of_handle, run-Reaches, IsShut, Reaches-IsShut,
}

abbrev is_send : Output → Bool
is_send (do_send packet) = true
is_send (state_changed r s) = false
is_send thrown = false
is_send aborted = false
is_send do_close = false
is_send (receive_packet packet) = false
is_send (after_change_persistency p) = false

abbrev pub IsSilent : List Output → Type 0
IsSilent = All (λ o. is_send o ≡ false)

IsSilent-append : (os ps : List Output) → IsSilent os → IsSilent ps → IsSilent (os ++ ps)
IsSilent-append [] ps h g = g
IsSilent-append (o ∷ os) ps (h, hs) g = (h, IsSilent-append os ps hs g)

-- Nothing was sent: no output, and the counters stand.
abbrev SentNothing : Transport → Transport × List Output → Type 0
SentNothing t r =
    IsSilent r.1 × (r.0.n_out_packets ≡ t.n_out_packets) × (r.0.n_out_bytes ≡ t.n_out_bytes)

set_state-nothing : (new : TransportState) (t : Transport) → SentNothing t (set_state new t)
set_state-nothing new t = elim (set_state_lem new t) [
  | inl (step, run) ↦ subst (SentNothing t) (sym run) ((refl, tt), refl, refl)
  | inr (inl (same, run)) ↦ subst (SentNothing t) (sym run) (tt, refl, refl)
  | inr (inr (none_such, other, run)) ↦ subst (SentNothing t) (sym run) ((refl, tt), refl, refl)
]

send-nothing : (packet : List ℕ) (t : Transport) → IsShut t.state → SentNothing t (send packet t)
unfolding send
send-nothing packet t shut = elim (Bool-cases (fits_mtu packet t.mtu)) [
  | inr large ↦ rw large ((refl, tt), refl, refl)
  | inl fits ↦ rw (fits, shut) (tt, refl, refl)
]

receive-nothing : (packet : List ℕ) (t : Transport) → SentNothing t (receive packet t)
unfolding receive
receive-nothing packet t = elim (Bool-cases (fits_mtu packet t.mtu)) [
  | inr large ↦ rw large ((refl, tt), refl, refl)
  | inl fits ↦ rw fits ((refl, tt), refl, refl)
]

persist-nothing :
    (can_change_impl : Persistency → Bool) (p : Persistency) (t : Transport)
    → SentNothing t (set_persistency can_change_impl p t)
unfolding set_persistency
persist-nothing can_change_impl p t =
    go (can_change_persistency_to can_change_impl p t)
      (persistency_number t.persistency == persistency_number p)
      (persistency_number t.persistency == 0)
  where
    go :
        (can same initial : Bool)
        → SentNothing t (
            if not can
            then (t, aborted ∷ [])
            else if same
            then (t, [])
            else if not initial
            then (record t { persistency = p }, after_change_persistency t.persistency ∷ [])
            else (record t { persistency = p }, []))
    go false same initial = ((refl, tt), refl, refl)
    go true true initial = (tt, refl, refl)
    go true false false = ((refl, tt), refl, refl)
    go true false true = (tt, refl, refl)

handle-nothing : (e : Event) (t : Transport) → IsShut t.state → SentNothing t (handle e t)
unfolding handle close
handle-nothing (to_state s) t shut = set_state-nothing s t
handle-nothing close_call t shut = rw shut (tt, refl, refl)
handle-nothing (send_call packet) t shut = send-nothing packet t shut
handle-nothing (receive_call packet) t shut = receive-nothing packet t
handle-nothing (persist can_change_impl p) t shut = persist-nothing can_change_impl p t

run-nothing : (es : List Event) (t : Transport) → IsShut t.state → SentNothing t (run es t)
unfolding run
run-nothing [] t shut = (tt, refl, refl)
run-nothing (e ∷ es) t shut =
    let (silent, packets, octets) = handle-nothing e t shut in
    let t' = (handle e t).0 in
    let (later, packets', octets') =
      run-nothing es t' (Reaches-IsShut (state-of_handle e t) shut) in
    (
      IsSilent-append (handle e t).1 (run es t').1 silent later,
      packets' ∙ packets,
      octets' ∙ octets,
    )

close-IsShut : (t : Transport) → IsShut (close t).0.state
unfolding close set_state
close-IsShut t = go t.state refl
  where
    go : (s : TransportState) → t.state ≡ s → IsShut (close t).0.state
    go no_state e = rw e refl
    go up e = rw e refl
    go down e = rw e refl
    go closing e = rw e refl
    go failed e = rw e refl
    go closed e = rw e refl

-- After `close`, whatever calls follow, a transport sends no packet and counts none, and it stays out of
-- UP and DOWN.
pub close-run :
    (es : List Event) (t : Transport)
    → let after_close = (close t).0 in
      IsSilent (run es after_close).1
      × ((run es after_close).0.n_out_packets ≡ after_close.n_out_packets)
      × ((run es after_close).0.n_out_bytes ≡ after_close.n_out_bytes)
      × IsShut (run es after_close).0.state
close-run es t =
    let t' = (close t).0 in
    let shut = close-IsShut t in
    let (silent, packets, octets) = run-nothing es t' shut in
    (silent, packets, octets, Reaches-IsShut (run-Reaches es t') shut)
