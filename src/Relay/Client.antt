-- ===== src/Relay/Client.antt =====
-- internal/relay/client.go: the waiters of a relay client and the channels that wake them.
pub mod Sound
pub mod Waiters
pub mod Connect
mod Tests
use kin.Base.{
  ℕ, zero, suc, ◌+◌, ◌≡◌, Bool, true, false, not, Option, none, some, List, [], ◌∷◌, ◌++◌, ltb,
  ◌==◌, if◌then◌else◌, length, Bytes, eqb, Result, ok, err,
}
use kin.Relay.{
  RelayMessage, relay_register, relay_registered, relay_connect, relay_rendezvous, relay_error,
  unexpected,
}

-- `kinpb.RelayRendezvous`, and `RendezvousInfo`, which has the same fields.
pub record Rendezvous : Type 0 where
  pub peer_node_id : Bytes
  pub peer_public_key : Bytes
  pub peer_external_addr : Bytes

-- A channel with room for one value.
pub record Chan : Type 0 where
  pub value : Option Rendezvous
  pub closed : Bool

pub data ClientError : Type 0 where
  relay_disconnected invalid_peer_node_id : ClientError

abbrev pub checked : Rendezvous → Result ClientError Rendezvous
checked rv = if not (length rv.peer_node_id == 32) then err invalid_peer_node_id else ok rv

-- What `RequestRendezvous` returns once its channel gives something: a value that was sent is read
-- first, also from a closed channel. None is a channel on which the call still blocks.
pub received : Chan → Option (Result ClientError Rendezvous)
received ch = elim ch.value [
  | some rv ↦ some (checked rv)
  | none ↦ if ch.closed then some (err relay_disconnected) else none
]

-- `Client` without its connection: `pending` by number of channel, and `next` the number of the
-- channel that is made next.
pub record Client : Type 0 where
  pub pending : List (Bytes × ℕ)
  pub next : ℕ
  pub chans : ℕ → Chan
  pub incoming : List Rendezvous
  pub incoming_closed : Bool
  pub closed : Bool

abbrev pub set_chan : ℕ → Chan → (ℕ → Chan) → ℕ → Chan
set_chan n c chans m = if m == n then c else chans m

-- The map `pending`.
pub delete : Bytes → List (Bytes × ℕ) → List (Bytes × ℕ)
delete id [] = []
delete id ((k, n) ∷ ps) = if eqb k id then delete id ps else (k, n) ∷ delete id ps

pub lookup : Bytes → List (Bytes × ℕ) → Option ℕ
lookup id [] = none
lookup id ((k, n) ∷ ps) = if eqb k id then some n else lookup id ps

-- What `RequestRendezvous` and `WaitForRendezvous` do first: the waiter's channel, or none where the
-- client is closed.
pub await : Bytes → Client → Option ℕ × Client
unfolding delete
await id c = if c.closed then (none, c) else (
  some c.next,
  record c {
    pending = (id, c.next) ∷ delete id c.pending;
    next = suc c.next;
    chans = set_chan c.next (record { value = none; closed = false }) c.chans;
  },
)

-- What they do last, whatever has come.
pub give_up : Bytes → Client → Client
unfolding delete
give_up id c = record c { pending = delete id c.pending }

-- A send that does not block. None is the panic on a closed channel.
pub offer : ℕ → Rendezvous → Client → Option Client
offer n rv c = if (c.chans n).closed then none else elim (c.chans n).value [
  | none ↦
      some (record c { chans = set_chan n (record { value = some rv; closed = false }) c.chans })
  | some old ↦ some c
]

-- A send on `incoming`, which has room for 16.
pub offer_incoming : Rendezvous → Client → Option Client
offer_incoming rv c =
    if c.incoming_closed
    then none
    else if ltb (length c.incoming) 16
    then some (record c { incoming = c.incoming ++ rv ∷ [] })
    else some c

abbrev pub route : Option ℕ → Rendezvous → Client → Option Client
route (some n) rv c = offer n rv c
route none rv c = if c.closed then some c else offer_incoming rv c

-- `dispatchRendezvous`
pub dispatch_rendezvous : Rendezvous → Client → Option Client
unfolding lookup offer offer_incoming
dispatch_rendezvous rv c =
    if not (length rv.peer_node_id == 32)
    then some c
    else route (lookup rv.peer_node_id c.pending) rv c

-- The loop of `closeLocked`: closing a closed channel panics.
pub close_chans : List (Bytes × ℕ) → (ℕ → Chan) → Option (ℕ → Chan)
close_chans [] chans = some chans
close_chans ((k, n) ∷ ps) chans =
    let rest =
      close_chans ps (set_chan n (record { value = (chans n).value; closed = true }) chans) in
    if (chans n).closed then none else rest

abbrev pub closed_with : Client → Option (ℕ → Chan) → Option Client
closed_with c none = none
closed_with c (some chans) =
    if c.incoming_closed
    then none
    else some (record c { pending = []; chans = chans; incoming_closed = true; closed = true })

-- `closeLocked`, which `Close`, `closeAllPending` and `dispatchError` call.
pub close_locked : Client → Option Client
unfolding close_chans
close_locked c = if c.closed then some c else closed_with c (close_chans c.pending c.chans)

-- What can happen to a client: its callers, its connection and the reader of `Incoming` take turns
-- under the lock. `lost` is the end of the connection, `refused` a `RelayError`.
pub data Event : Type 0 where
  awaits gives_up : Bytes → Event
  comes : Rendezvous → Event
  lost refused closes takes : Event

abbrev pub taken : List Rendezvous → List Rendezvous
taken [] = []
taken (rv ∷ rvs) = rvs

pub handle : Event → Client → Option Client
unfolding await give_up dispatch_rendezvous close_locked
handle (awaits id) c = some (await id c).1
handle (gives_up id) c = some (give_up id c)
handle (comes rv) c = dispatch_rendezvous rv c
handle lost c = close_locked c
handle refused c = close_locked c
handle closes c = close_locked c
handle takes c = some (record c { incoming = taken c.incoming })

abbrev pub then_run : (Client → Option Client) → Option Client → Option Client
then_run f none = none
then_run f (some c) = f c

pub run : List Event → Client → Option Client
unfolding handle
run [] c = some c
run (e ∷ es) c = then_run (run es) (handle e c)

-- `readLoop` on the messages that come until the connection ends.
pub read_loop : List RelayMessage → Client → Option Client
unfolding close_locked dispatch_rendezvous
read_loop [] c = close_locked c
read_loop (relay_rendezvous id key addr ∷ ms) c = then_run (read_loop ms) (
    dispatch_rendezvous
      (record { peer_node_id = id; peer_public_key = key; peer_external_addr = addr }) c)
read_loop (relay_error reason ∷ ms) c = then_run (read_loop ms) (close_locked c)
read_loop (relay_register id key port ∷ ms) c = read_loop ms c
read_loop (relay_registered addr ∷ ms) c = read_loop ms c
read_loop (relay_connect id ∷ ms) c = read_loop ms c
read_loop (unexpected ∷ ms) c = read_loop ms c

-- The client that `Connect` returns.
pub connected : Client
connected = record {
  pending = [];
  next = 0;
  chans = λ n. record { value = none; closed = false };
  incoming = [];
  incoming_closed = false;
  closed = false;
}
