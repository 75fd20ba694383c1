-- ===== src/Ipc/Client/Subscribe.antt =====
-- internal/ipc/client.go: the channel of events that a subscription gives.
pub mod Heard
pub mod Delivered
mod Tests
use kin.Base.{
  ℕ, zero, suc, ◌≡◌, Bool, true, false, Option, none, some, List, [], ◌∷◌, ◌++◌, ltb, if◌then◌else◌,
  length, drop, take, Bytes, Result, ok, err,
}
use kin.Base.Streams.{Reader}
use kin.Bolt.{Json}
use kin.Ipc.{Request, Response, Event}
use kin.Ipc.Framing.{JsonError, read_json}
use kin.Ipc.Server.{method_subscribe}
use kin.Ipc.Client.{ClientError, refused, Client, call}

abbrev pub zero_event : Event
zero_event = record { kind = []; raw_data = [] }

-- The channel, and what was taken off it so far.
pub record Feed : Type 0 where
  pub buffer : List Event
  pub taken : List Event
  pub closed : Bool

abbrev pub new_feed : Feed
new_feed = record { buffer = []; taken = []; closed = false }

-- A send that does not block, on a channel with room for 64.
pub offer : Event → Feed → Feed
offer ev f = if ltb (length f.buffer) 64 then record f { buffer = f.buffer ++ ev ∷ [] } else f

-- The program takes so many events, or those that are there.
abbrev pub take_events : ℕ → Feed → Feed
take_events n f = record f { buffer = drop n f.buffer; taken = f.taken ++ take n f.buffer }

module _ (events : Json Event) where
  abbrev pub heard :
      (Reader → Feed → Feed × Reader) → Result JsonError Event × Reader → Feed → Feed × Reader
  heard next (ok ev, r) f = next r (offer ev f)
  heard next (err e, r) f = (record f { closed = true }, r)

  -- The loop of the goroutine for at most so many turns, the program taking events before each one.
  pub read_events : ℕ → (ℕ → ℕ) → Reader → Feed → Feed × Reader
  unfolding offer
  read_events zero takes r f = (f, r)
  read_events (suc n) takes r f =
      heard (read_events n takes) (read_json events zero_event r) (take_events (takes n) f)

  -- The goroutine on a connection on which no more comes than what is pending; an event takes four
  -- bytes at least, so that the turns are enough.
  pub listen : (ℕ → ℕ) → Reader → Feed → Feed × Reader
  unfolding read_events
  listen takes r f = read_events (suc (length r.pending)) takes r f

module _ (requests : Json Request) (responses : Json Response) {D : Type 0}
    (daemon : Client → D → Client × D) where
  abbrev pub opened : Result ClientError Response → Result ClientError Feed
  opened (err e) = err e
  opened (ok r) = elim r.error [ some e ↦ err (refused e) | none ↦ ok new_feed ]

  -- `Subscribe`, up to the start of the goroutine. Its request has no parameters, and is sent and
  -- answered as that of a call is.
  pub subscribe : Client → D → Result ClientError Feed × Client × D
  subscribe c d =
      let (r, c', d') = call requests responses daemon method_subscribe (some []) c d in
      (opened r, c', d')
