-- ===== src/Connmgr/Serve.antt =====
-- internal/connmgr/serve.go and internal/nat/punch.go: being found by way of a relay.
use kin.Base.{ℕ, zero, suc, if◌then◌else◌, Bool, true, false, Option, none, some, Bytes}
use kin.Connmgr.{Network, external_port}

-- What a look at the context and at `Incoming` gives.
pub data Inbound : Type 0 where
  cancelled lost : Inbound
  asked_by : Bytes → Inbound

pub data ServeError : Type 0 where
  relay_failed context_ended connection_lost : ServeError

-- The context, a relay's client, the timers and `Listener.Prime`, as they are used here. `sleep`
-- tells whether the context was cancelled meanwhile; its argument is in milliseconds.
pub record Surroundings (net : Network) : Type 1 where
  pub inbound : net.Client → net.World → Inbound × net.World
  pub is_cancelled : net.World → Bool
  pub sleep : ℕ → net.World → Bool × net.World
  pub prime : Bytes → net.World → net.World

module _ (net : Network) (around : Surroundings net) where
  open net use {World, Client, connect, close}
  open around use {inbound, is_cancelled, sleep, prime}

  abbrev pub unless_cancelled : (World → World) → Bool × World → World
  unless_cancelled next (true, w) = w
  unless_cancelled next (false, w) = next w

  -- `PrimeNAT`, with the number of datagrams that are left. The last one is not waited behind.
  unfoldable pub prime_burst : ℕ → Bytes → World → World
  prime_burst zero addr w = w
  prime_burst (suc zero) addr w = if is_cancelled w then w else prime addr w
  prime_burst (suc (suc n)) addr w =
      let next = prime_burst (suc n) addr in
      if is_cancelled w then w else unless_cancelled next (sleep 20 (prime addr w))

  unfoldable pub prime_nat : Bytes → World → World
  unfolding prime_burst
  prime_nat addr w = prime_burst 5 addr w

  -- The loop of `ServePunch` for this many turns: none is one that goes on. A burst, which the code
  -- starts beside the loop, is taken as run at once.
  abbrev pub inbound_turn :
      (World → Option ServeError × World) → Inbound × World → Option ServeError × World
  inbound_turn next (cancelled, w) = (some context_ended, w)
  inbound_turn next (lost, w) = (some connection_lost, w)
  inbound_turn next (asked_by addr, w) = next (prime_nat addr w)

  unfoldable pub serve_turns : ℕ → Client → World → Option ServeError × World
  unfolding prime_nat
  serve_turns zero client w = (none, w)
  serve_turns (suc n) client w = inbound_turn (serve_turns n client) (inbound client w)

  abbrev pub closing : Client → Option ServeError × World → Option ServeError × World
  closing client (none, w) = (none, w)
  closing client (some e, w) = (some e, close client w)

  abbrev pub registered : ℕ → Option Client × World → Option ServeError × World
  registered n (none, w) = (some relay_failed, w)
  registered n (some client, w) = closing client (serve_turns n client w)

  -- `ServePunch`
  unfoldable pub serve_punch : ℕ → Bytes → World → Option ServeError × World
  unfolding serve_turns
  serve_punch n relay w =
      let (port, w') = external_port net relay w in registered n (connect relay port w')
