-- ===== src/Face/Transport.antt =====
-- `Transport` of daemon/face/transport.cpp, the part that all transports share. A packet is its
-- octets. What a kind of transport adds is a parameter (`canChangePersistencyToImpl`), or an
-- output: `doClose`, `doSend` and `afterChangePersistency`. An exception and a failed assertion are
-- outputs too.
pub mod States
pub mod Closing
use nfd_qo_s.Base.{
  ℕ, ◌+◌, ◌%◌, ◌^◌, Bool, true, false, not, ◌||◌, Option, none, some, List, [], ◌∷◌, ◌++◌, leb,
  ◌==◌, if◌then◌else◌, length,
}

-- The code's NONE is `no_state`; the constructor starts with UP.
pub data TransportState : Type 0 where
  no_state up down closing failed closed : TransportState

pub data Persistency : Type 0 where
  persistency_none on_demand persistent permanent : Persistency

pub data Output : Type 0 where
  state_changed : TransportState → TransportState → Output
  thrown : Output
  aborted : Output
  do_close : Output
  do_send : List ℕ → Output
  receive_packet : List ℕ → Output
  after_change_persistency : Persistency → Output

-- `mtu` is `none` for MTU_UNLIMITED.
pub record Transport : Type 0 where
  pub state : TransportState
  pub persistency : Persistency
  pub mtu : Option ℕ
  pub n_in_packets : ℕ
  pub n_in_bytes : ℕ
  pub n_out_packets : ℕ
  pub n_out_bytes : ℕ

abbrev pub wrap : ℕ → ℕ
wrap n = n % 2 ^ 64

-- The constructor, with the MTU that the kind of transport sets.
abbrev pub new_transport : Option ℕ → Transport
new_transport mtu = record {
  state = up;
  persistency = persistency_none;
  mtu = mtu;
  n_in_packets = 0;
  n_in_bytes = 0;
  n_out_packets = 0;
  n_out_bytes = 0;
}

abbrev pub state_number : TransportState → ℕ
state_number no_state = 0
state_number up = 1
state_number down = 2
state_number closing = 3
state_number failed = 4
state_number closed = 5

abbrev pub persistency_number : Persistency → ℕ
persistency_number persistency_none = 0
persistency_number on_demand = 1
persistency_number persistent = 2
persistency_number permanent = 3

-- The `switch` of `setState`.
abbrev pub is_valid : TransportState → TransportState → Bool
is_valid up s = state_number s == 2 || state_number s == 3 || state_number s == 4
is_valid down s = state_number s == 1 || state_number s == 3 || state_number s == 4
is_valid closing s = state_number s == 5
is_valid failed s = state_number s == 5
is_valid closed s = false
is_valid no_state s = false

unfoldable pub set_state : TransportState → Transport → Transport × List Output
set_state new t =
    if state_number t.state == state_number new
    then (t, [])
    else if not (is_valid t.state new)
    then (t, thrown ∷ [])
    else (record t { state = new }, state_changed t.state new ∷ [])

abbrev pub is_open : TransportState → Bool
is_open s = state_number s == 1 || state_number s == 2

unfoldable pub close : Transport → Transport × List Output
unfolding set_state
close t =
    if not (is_open t.state)
    then (t, [])
    else (let (t', outputs) = set_state closing t in (t', outputs ++ do_close ∷ []))

abbrev pub fits_mtu : List ℕ → Option ℕ → Bool
fits_mtu packet none = true
fits_mtu packet (some mtu) = leb (length packet) mtu

unfoldable pub send : List ℕ → Transport → Transport × List Output
send packet t =
    if not (fits_mtu packet t.mtu)
    then (t, aborted ∷ [])
    else if not (is_open t.state)
    then (t, [])
    else if state_number t.state == 1
    then (
      record t {
        n_out_packets = wrap (t.n_out_packets + 1);
        n_out_bytes = wrap (t.n_out_bytes + length packet);
      },
      do_send packet ∷ [],
    )
    else (t, do_send packet ∷ [])

unfoldable pub receive : List ℕ → Transport → Transport × List Output
receive packet t = if not (fits_mtu packet t.mtu) then (t, aborted ∷ []) else (
  record t {
    n_in_packets = wrap (t.n_in_packets + 1);
    n_in_bytes = wrap (t.n_in_bytes + length packet);
  },
  receive_packet packet ∷ [],
)

abbrev pub can_change_persistency_to : (Persistency → Bool) → Persistency → Transport → Bool
can_change_persistency_to can_change_impl p t =
    if persistency_number t.persistency == persistency_number p
      || persistency_number t.persistency == 0
    then true
    else if persistency_number p == 0
    then false
    else can_change_impl p

unfoldable pub set_persistency :
    (Persistency → Bool) → Persistency → Transport → Transport × List Output
set_persistency can_change_impl p t =
    if not (can_change_persistency_to can_change_impl p t)
    then (t, aborted ∷ [])
    else if persistency_number t.persistency == persistency_number p
    then (t, [])
    else if not (persistency_number t.persistency == 0)
    then (record t { persistency = p }, after_change_persistency t.persistency ∷ [])
    else (record t { persistency = p }, [])

-- A call of a transport, by the kind of transport (`to_state`), its face or its owner.
pub data Event : Type 0 where
  to_state : TransportState → Event
  close_call : Event
  send_call : List ℕ → Event
  receive_call : List ℕ → Event
  persist : (Persistency → Bool) → Persistency → Event

unfoldable pub handle : Event → Transport → Transport × List Output
unfolding set_state close send receive set_persistency
handle (to_state s) t = set_state s t
handle close_call t = close t
handle (send_call packet) t = send packet t
handle (receive_call packet) t = receive packet t
handle (persist can_change_impl p) t = set_persistency can_change_impl p t

-- The calls in turn.
unfoldable pub run : List Event → Transport → Transport × List Output
unfolding handle
run [] t = (t, [])
run (e ∷ es) t =
    let (t₁, outputs) = handle e t in let (t₂, later) = run es t₁ in (t₂, outputs ++ later)
