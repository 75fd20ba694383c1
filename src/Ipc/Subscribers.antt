-- ===== src/Ipc/Subscribers.antt =====
-- internal/daemon/server.go: the subscribers of the daemon's events.
pub mod Delivery
mod Tests
use kin.Base.{
  ℕ, ◌≡◌, Bool, true, false, Option, none, some, List, [], ◌∷◌, ◌++◌, ◌==◌, if◌then◌else◌, Bytes,
  Result, ok, err,
}
use kin.Base.Streams.{Writer}
use kin.Bolt.{Json}
use kin.Ipc.{Response, Event}
use kin.Ipc.Framing.{WriteError, write_json}

-- `subscriber`: what was written on its connection, whether the deadline for a write can be set,
-- which it cannot on a closed connection, and whether it was closed.
pub record Subscriber : Type 0 where
  pub outgoing : Writer
  pub deadline_ok : Bool
  pub closed : Bool

-- Of `Server` the list of subscribers, by their addresses, and the subscribers at all addresses.
pub record Server : Type 0 where
  pub subscribers : List ℕ
  pub subs : ℕ → Subscriber
  pub closed : Bool

unfoldable pub set_sub : ℕ → Subscriber → (ℕ → Subscriber) → ℕ → Subscriber
set_sub i sub subs j = if i == j then sub else subs j

-- The loop of `removeSub`, which ends at the first that is found.
pub remove_first : ℕ → List ℕ → List ℕ
remove_first i [] = []
remove_first i (j ∷ js) = let rest = j ∷ remove_first i js in if j == i then js else rest

pub remove_sub : ℕ → Server → Server
unfolding remove_first
remove_sub i s = record s { subscribers = remove_first i s.subscribers }

-- `close` of a subscriber.
pub close_sub : ℕ → Server → Server
unfolding set_sub
close_sub i s = record s { subs = set_sub i (record (s.subs i) { closed = true }) s.subs }

module _ (events : Json Event) (responses : Json Response) where
  abbrev pub written : ℕ → Server → Result WriteError (Unit {0}) × Writer → Bool × Server
  written i s (ok u, w) =
      (true, record s { subs = set_sub i (record (s.subs i) { outgoing = w }) s.subs })
  written i s (err e, w) =
      (false, record s { subs = set_sub i (record (s.subs i) { outgoing = w }) s.subs })

  -- `send`, and whether it went well.
  unfoldable pub send : Event → ℕ → Server → Bool × Server
  unfolding set_sub
  send ev i s =
      if (s.subs i).closed
      then (false, s)
      else if (s.subs i).deadline_ok
      then written i s (write_json events ev (s.subs i).outgoing)
      else (false, s)

  abbrev pub drop_failed : ℕ → Bool × Server → Server
  drop_failed i (true, s) = s
  drop_failed i (false, s) = close_sub i (remove_sub i s)

  -- The loop of `Broadcast` over the copy of the list, and `Broadcast`.
  unfoldable pub broadcast_loop : Event → List ℕ → Server → Server
  unfolding send remove_sub close_sub
  broadcast_loop ev [] s = s
  broadcast_loop ev (i ∷ is) s = broadcast_loop ev is (drop_failed i (send ev i s))

  unfoldable pub broadcast : Event → Server → Server
  unfolding broadcast_loop
  broadcast ev s = broadcast_loop ev s.subscribers s

  abbrev pub acknowledged :
      ℕ → Writer → Server → Result WriteError (Unit {0}) × Writer → Bool × Server
  acknowledged i w s (ok u, w') = (
    true,
    record s {
      subscribers = s.subscribers ++ i ∷ [];
      subs = set_sub i (record { outgoing = w'; deadline_ok = true; closed = false }) s.subs;
    },
  )
  acknowledged i w s (err e, w') = (false, s)

  -- `handleSubscribe` until it waits for the connection's end; behind that it calls `removeSub`.
  -- `i` is the address of the new subscriber, `w` its connection.
  unfoldable pub subscribe : ℕ → ℕ → Writer → Server → Bool × Server
  unfolding set_sub
  subscribe id i w s =
      acknowledged i w s (write_json responses (record { id = id; error = none; raw_data = [] }) w)

  -- The loop of `Close`, and `Close`, less the listener.
  pub close_each : List ℕ → Server → Server
  unfolding close_sub
  close_each [] s = s
  close_each (i ∷ is) s = close_each is (close_sub i s)

  pub close_server : Server → Server
  unfolding close_each
  close_server s =
      if s.closed
      then s
      else close_each s.subscribers (record s { closed = true; subscribers = [] })
