-- ===== src/Connmgr.antt =====
-- internal/connmgr/dial.go: direct connections first, then hole punching by a relay.
pub mod Order
pub mod Samples
pub mod Serve
mod Tests
use kin.Base.{
  ℕ, zero, ◌+◌, ◌-◌, ◌*◌, ◌^◌, ◌%◌, ◌≡◌, Bool, true, false, ◌&&◌, not, Option, none, some, List, [],
  ◌∷◌, ltb, ◌++◌, leb, ◌==◌, if◌then◌else◌, length, drop, take, ◌++◌, Bytes, eqb, Result, ok, err,
}

pub data DialError : Type 0 where
  no_route direct_failed relay_failed rendezvous_failed punch_failed : DialError

-- The socket, relays and NATs as the dialer uses them: `Listener.Dial`, `DiscoverExternalAddr` and
-- `Port`, `relay.Connect`, `RequestRendezvous` and `Close`, and `nat.Punch`. Each call may change
-- the world.
pub record Network : Type 1 where
  pub World : Type 0
  pub Conn : Type 0
  pub Client : Type 0
  pub peer_node_id : Conn → Bytes
  pub port : ℕ
  pub direct : Bytes → Bytes → World → Option Conn × World
  pub discover : Bytes → World → Option Bytes × World
  pub connect : Bytes → ℕ → World → Option Client × World
  pub rendezvous : Client → Bytes → World → Option Bytes × World
  pub punch : Bytes → Bytes → World → Option Conn × World
  pub close : Client → World → World
  -- `net.SplitHostPort`
  pub split_host_port : Bytes → Option (Bytes × Bytes)

-- "relay://"
abbrev pub scheme : Bytes
scheme = b'r' ∷ b'e' ∷ b'l' ∷ b'a' ∷ b'y' ∷ b':' ∷ b'/' ∷ b'/' ∷ []

abbrev pub is_relay : Bytes → Bool
is_relay ep = eqb (take 8 ep) scheme

-- `splitEndpoints`, with the lists so far.
unfoldable pub split_from : List Bytes → List Bytes → List Bytes → List Bytes × List Bytes
split_from direct relays [] = (direct, relays)
split_from direct relays (ep ∷ eps) =
    let as_relay = split_from direct (relays ++ drop 8 ep ∷ []) eps in
    let as_direct = split_from (direct ++ ep ∷ []) relays eps in
    if is_relay ep then as_relay else as_direct

unfoldable pub split_endpoints : List Bytes → List Bytes × List Bytes
unfolding split_from
split_endpoints eps = split_from [] [] eps

-- `strconv.ParseUint` in base 10 with 32 bits.
unfoldable pub parse_digits : ℕ → Bytes → Option ℕ
parse_digits n [] = some n
parse_digits n (b ∷ bs) =
    let rest = parse_digits (n * 10 + (b - b'0')) bs in
    if leb b'0' b && leb b b'9' then rest else none

abbrev pub in_range : Option ℕ → Option ℕ
in_range none = none
in_range (some n) = if ltb n (2 ^ 32) then some n else none

unfoldable pub parse_uint : Bytes → Option ℕ
unfolding parse_digits
parse_uint [] = none
parse_uint (b ∷ bs) = in_range (parse_digits 0 (b ∷ bs))

-- The port that a discovered address names, where it names one above 0.
abbrev pub port_in : Option (Bytes × Bytes) → Option ℕ
port_in none = none
port_in (some (host, port)) = parse_uint port

abbrev pub or_local : ℕ → Option ℕ → ℕ
or_local port none = port % 2 ^ 32
or_local port (some n) = if n == 0 then port % 2 ^ 32 else n

module _ (net : Network) where
  open net use {
    World, Conn, Client, peer_node_id, port, direct, discover, connect, rendezvous, punch, close,
    split_host_port,
  }

  abbrev pub port_of : Option Bytes → Option ℕ
  port_of none = none
  port_of (some addr) = port_in (split_host_port addr)

  unfoldable pub external_port : Bytes → World → ℕ × World
  unfolding parse_uint
  external_port relay w = let (ext, w') = discover relay w in (or_local port (port_of ext), w')

  abbrev pub or_failed : DialError → Option Conn × World → Result DialError Conn × World
  or_failed e (none, w) = (err e, w)
  or_failed e (some conn, w) = (ok conn, w)

  -- `punchViaRelay`, once the relay has answered; the client is closed at the end.
  unfoldable pub punch_at : Client → Bytes → Option Bytes × World → Result DialError Conn × World
  punch_at client peer (none, w) = (err rendezvous_failed, close client w)
  punch_at client peer (some addr, w) =
      let (out, w') = or_failed punch_failed (punch addr peer w) in (out, close client w')

  unfoldable pub punch_with : Bytes → Option Client × World → Result DialError Conn × World
  unfolding punch_at
  punch_with peer (none, w) = (err relay_failed, w)
  punch_with peer (some client, w) = punch_at client peer (rendezvous client peer w)

  unfoldable pub punch_via_relay : Bytes → Bytes → World → Result DialError Conn × World
  unfolding external_port punch_with
  punch_via_relay peer relay w =
      let (port', w') = external_port relay w in punch_with peer (connect relay port' w')

  -- A connection is returned; after an error the code goes on.
  abbrev pub or_next :
      Result DialError Conn × World
      → (DialError → World → Result DialError Conn × World)
      → Result DialError Conn × World
  or_next (ok conn, w) next = (ok conn, w)
  or_next (err e, w) next = next e w

  -- `tryEach`, with the error to return if no address is left.
  unfoldable pub try_from :
      (Bytes → World → Result DialError Conn × World)
      → DialError
      → List Bytes
      → World
      → Result DialError Conn × World
  try_from attempt last [] w = (err last, w)
  try_from attempt last (addr ∷ addrs) w =
      or_next (attempt addr w) (λ e w'. try_from attempt e addrs w')

  unfoldable pub try_each :
      List Bytes
      → (Bytes → World → Result DialError Conn × World)
      → World
      → Result DialError Conn × World
  unfolding try_from
  try_each addrs attempt w = try_from attempt no_route addrs w

  abbrev pub try_direct : Bytes → Bytes → World → Result DialError Conn × World
  try_direct peer addr w = or_failed direct_failed (direct addr peer w)

  -- The relays, once the direct attempts have ended so.
  abbrev pub try_relays :
      Bytes → List Bytes → Result DialError Conn × World → Result DialError Conn × World
  try_relays peer relays out =
      or_next out
        (λ e w. or_next (try_each relays (punch_via_relay peer) w) (λ e' w'. (err no_route, w')))

  -- `Dial`
  unfoldable pub dial : Bytes → List Bytes → World → Result DialError Conn × World
  unfolding split_endpoints try_each punch_via_relay
  dial peer endpoints w =
      let (addrs, relays) = split_endpoints endpoints in
      try_relays peer relays (try_each addrs (try_direct peer) w)
