-- ===== src/Face/Tests.antt =====
-- Runs of a transport.
use nfd_qo_s.Base.{◌≡◌, ◌≢◌, ◌⊎◌, some, List, [], ◌∷◌}
use nfd_qo_s.Face.Transport.Closing.{IsSilent, close-run}
use nfd_qo_s.Face.Transport.{
  up, closed, state_changed, thrown, Transport, new_transport, set_state, close, Event, to_state,
  close_call, send_call, receive_call, run,
}
use nfd_qo_s.Face.Transport.States.{Step, set_state_lem, IsShut}

abbrev sender : Transport
sender = new_transport (some 8)

set_state_lem_example :
    (Step up closed
      × (set_state closed sender
          ≡ (record sender { state = closed }, state_changed up closed ∷ [])))
    ⊎ ((up ≡ closed) × (set_state closed sender ≡ (sender, [])))
    ⊎ (¬ Step up closed × (up ≢ closed) × (set_state closed sender ≡ (sender, thrown ∷ [])))
set_state_lem_example = set_state_lem closed sender

abbrev calls : List Event
calls = send_call (5 ∷ []) ∷ to_state closed ∷ receive_call (6 ∷ 7 ∷ []) ∷ close_call ∷ []

close-run_example :
    IsSilent (run calls (close sender).0).1
    × ((run calls (close sender).0).0.n_out_packets ≡ (close sender).0.n_out_packets)
    × ((run calls (close sender).0).0.n_out_bytes ≡ (close sender).0.n_out_bytes)
    × IsShut (run calls (close sender).0).0.state
close-run_example = close-run calls sender
