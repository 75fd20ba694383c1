-- ===== src/Cli.antt =====
-- cmd/kin/main.go: the commands where no daemon is running.
pub mod Exchange
mod Tests
use kin.Base.{
  ℕ, suc, ◌%◌, ◌^◌, ◌≡◌, Bool, true, false, not, ◌&&◌, Option, none, some, List, [], ◌∷◌, ◌++◌,
  ◌==◌, if◌then◌else◌, length, Bytes, eqb, Result, ok, err, ◌>>=◌,
}
use kin.Base.Times.{Time}
use kin.Bolt.{Bolt, Json}
use kin.Invite.{Crypto, Token, InviteError, default_ttl, create, encode, decode, validate}
use kin.Peerstore.{Peer, tofu, put_peer}
use kin.Peerstore.Nonces.{peer_nonces}
use kin.Connmgr.{DialError, Network, dial}
use kin.Catalog.{Entry}
use kin.Catalog.Convert.{CatalogFile, entries_to_proto}
use kin.Messages.{
  Message, file_request, file_response, file_chunk, catalog_offer, catalog_ack, error_message,
  other,
}
use kin.Transfer.{Link, send}
use kin.Protocol.Handler.{CatalogExchanger, accepted}

-- "0.0.0.0", "::" and "relay://"
abbrev pub any_v4 : Bytes
any_v4 = b'0' ∷ b'.' ∷ b'0' ∷ b'.' ∷ b'0' ∷ b'.' ∷ b'0' ∷ []

abbrev pub any_v6 : Bytes
any_v6 = b':' ∷ b':' ∷ []

abbrev pub scheme : Bytes
scheme = b'r' ∷ b'e' ∷ b'l' ∷ b'a' ∷ b'y' ∷ b':' ∷ b'/' ∷ b'/' ∷ []

-- `split_host` is the host of `net.SplitHostPort`.
abbrev pub own_endpoint : Bytes → Option Bytes → List Bytes
own_endpoint listen_addr none = []
own_endpoint listen_addr (some host) =
    if not (eqb host any_v4) && (not (eqb host []) && not (eqb host any_v6))
    then listen_addr ∷ []
    else []

pub direct_endpoints : (Bytes → Option Bytes) → Bytes → Bytes → List Bytes
direct_endpoints split_host listen_addr relay_addr =
    own_endpoint listen_addr (split_host listen_addr)
    ++ (if eqb relay_addr [] then [] else (scheme ++ relay_addr) ∷ [])

-- `cmdInvite` in direct mode: the text that it prints.
pub invite_direct :
    (c : Crypto)
    → (Bytes → Option Bytes)
    → c.PrivKey
    → Bytes
    → Bytes
    → Option Bytes
    → Time
    → Result InviteError Bytes
unfolding direct_endpoints
invite_direct c split_host priv_key listen_addr relay_addr random now = do
  t ←
      create (c.public priv_key) random now (direct_endpoints split_host listen_addr relay_addr)
        default_ttl
  encode c t priv_key

-- The calls of `fatalf`.
pub data Fatal : Type 0 where
  decode_failed validate_failed : InviteError → Fatal
  bad_key no_endpoints listen_failed : Fatal
  not_connected : DialError → Fatal

module _ (c : Crypto) (sha256 : Bytes → Bytes) (bolt : Bolt) (json : Json Peer)
    (net : Network) where
  open net use {World, Conn, peer_node_id}

  abbrev pub Store : Type 0
  Store = kin.Peerstore.Store bolt json

  -- What a join ends with: the connection, on which the catalogs are exchanged then.
  abbrev pub Outcome : Type 0
  Outcome = Result Fatal Conn × Store × World

  -- Behind `Dial`. An error of `PutPeer` is logged.
  unfoldable pub connected : Token → Time → Store → Result DialError Conn × World → Outcome
  connected t later s (err e, w) = (err (not_connected e), s, w)
  connected t later s (ok conn, w) =
      let peer : Peer = record {
        node_id = peer_node_id conn;
        public_key = t.public_key;
        endpoints = t.endpoints;
        trust_state = tofu;
        last_seen = later;
      } in
      (ok conn, (put_peer bolt json peer later s).1, w)

  -- Behind the validation; `listening` tells whether `transport.Listen` succeeds.
  unfoldable pub dial_direct : Bool → Token → Time → Store → World → Outcome
  unfolding connected
  dial_direct listening t later s w =
      if not (length t.public_key == 32)
      then (err bad_key, s, w)
      else if length t.endpoints == 0
      then (err no_endpoints, s, w)
      else if listening
      then connected t later s (dial net (sha256 t.public_key) t.endpoints w)
      else (err listen_failed, s, w)

  unfoldable pub validated_direct :
      Bool → Token → Time → Result InviteError (Unit {0}) × Store → World → Outcome
  unfolding dial_direct
  validated_direct listening t later (err e, s) w = (err (validate_failed e), s, w)
  validated_direct listening t later (ok u, s) w = dial_direct listening t later s w

  unfoldable pub decoded_direct :
      Bool → Bytes → Time → Time → Result InviteError Token → Store → World → Outcome
  unfolding validated_direct
  decoded_direct listening raw now later (err e) s w = (err (decode_failed e), s, w)
  decoded_direct listening raw now later (ok t) s w =
      validated_direct listening t later (validate c (peer_nonces bolt json) now t raw s) w

  -- `cmdJoin` in direct mode, up to the exchange of the catalogs.
  unfoldable pub join_direct : Bool → Bytes → Time → Time → Store → World → Outcome
  unfolding decoded_direct
  join_direct listening raw now later s w =
      decoded_direct listening raw now later (decode c raw) s w

module _ (exchanger : CatalogExchanger) where
  open exchanger use {Catalog, list_for_peer, put_peer_entries}

  -- `sendCatalogOffer`, and whether it went well.
  abbrev pub offer_listed : Option (List Entry) → Link → Bool × Link
  offer_listed none l = (false, l)
  offer_listed (some es) l = send (catalog_offer (entries_to_proto es)) l

  pub send_catalog_offer : Bytes → Catalog → Link → Bool × Link
  send_catalog_offer peer cat l = offer_listed (list_for_peer peer cat) l

  -- `handleReceivedOffer`; errors of the store and of the link are logged.
  pub handle_received_offer : Bytes → List CatalogFile → Catalog → Link → Catalog × Link
  handle_received_offer peer files cat l =
      let es = accepted files in
      ((put_peer_entries peer es cat).1, (send (catalog_ack (length es % 2 ^ 32)) l).1)

  -- `receivePeerCatalog` on the messages that come until the connection ends. `cancelled i` is what
  -- the `i`-th look at the context finds.
  pub receive_peer_catalog : (ℕ → Bool) → ℕ → List Message → Bytes → Catalog → Link → Catalog × Link
  unfolding handle_received_offer
  receive_peer_catalog cancelled i [] peer cat l = (cat, l)
  receive_peer_catalog cancelled i (catalog_offer files ∷ ms) peer cat l =
      if cancelled i then (cat, l) else handle_received_offer peer files cat l
  receive_peer_catalog cancelled i (catalog_ack n ∷ ms) peer cat l =
      let rest = receive_peer_catalog cancelled (suc i) ms peer cat l in
      if cancelled i then (cat, l) else rest
  receive_peer_catalog cancelled i (file_request id ∷ ms) peer cat l = (cat, l)
  receive_peer_catalog cancelled i (file_response id size missing ∷ ms) peer cat l = (cat, l)
  receive_peer_catalog cancelled i (file_chunk id bytes eof ∷ ms) peer cat l = (cat, l)
  receive_peer_catalog cancelled i (error_message code text ∷ ms) peer cat l = (cat, l)
  receive_peer_catalog cancelled i (other ∷ ms) peer cat l = (cat, l)

  abbrev pub if_sent : (Link → Catalog × Link) → Catalog → Bool × Link → Catalog × Link
  if_sent next cat (true, l) = next l
  if_sent next cat (false, l) = (cat, l)

  -- `exchangeCatalog`
  pub exchange_catalog : (ℕ → Bool) → List Message → Bytes → Catalog → Link → Catalog × Link
  unfolding send_catalog_offer receive_peer_catalog
  exchange_catalog cancelled ms peer cat l =
      if_sent (receive_peer_catalog cancelled 0 ms peer cat) cat (send_catalog_offer peer cat l)
