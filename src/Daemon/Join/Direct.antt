-- ===== src/Daemon/Join/Direct.antt =====
-- The join command without a daemon does what the daemon's handler does.
use kin.Base.{
  ℕ, ◌≡◌, refl, true, false, some, List, [], ◌∷◌, ◌++◌, ◌==◌, length, Bytes, eqb, Result, ok, err,
  Bool-cases, inl, inr,
}
use kin.Base.Times.{Time}
use kin.Bolt.{Bolt, Json}
use kin.Invite.{Crypto, Token, InviteError, decode, validate}
use kin.Peerstore.{Peer}
use kin.Peerstore.Nonces.{peer_nonces}
use kin.Catalog.{Entry, OwnerHint}
use kin.Connmgr.{DialError, Network, dial}
use kin.Daemon.{
  Host, Response, ErrorCode, invalid_token, connect_failed, join_reply, err_response, ok_response,
  hex_node_id,
}
use kin.Daemon.Join.{State, joined, dial_token, validated, decoded, join_param}
use kin.Cli.{
  Fatal, decode_failed, validate_failed, bad_key, no_endpoints, listen_failed, not_connected,
  connected, dial_direct, validated_direct, decoded_direct, join_direct,
}

-- What the handler answers where the command stops.
abbrev pub code_of : Fatal → ErrorCode
code_of (decode_failed e) = invalid_token
code_of (validate_failed e) = invalid_token
code_of bad_key = invalid_token
code_of no_endpoints = invalid_token
code_of listen_failed = invalid_token
code_of (not_connected e) = connect_failed

module _ (c : Crypto) (host : Host c) (bolt : Bolt) (peer_json : Json Peer)
    (entry_json : Json Entry) (hints_json : Json (List OwnerHint)) (net : Network) where
  open host use {sha256}
  open net use {World, Conn, peer_node_id}

  -- The answer and the served connections that go with how the command ends.
  abbrev pub Answers : ℕ → Result Fatal Conn → List Conn → Response → List Conn → Type 0
  Answers id (ok conn) served resp served' =
      (resp ≡ ok_response id (join_reply (hex_node_id (peer_node_id conn))))
      × (served' ≡ served ++ conn ∷ [])
  Answers id (err e) served resp served' = (resp ≡ err_response id (code_of e)) × (served' ≡ served)

  -- The same peer store, the same network, and the answer that goes with the command's end.
  abbrev pub Agree :
      ℕ
      → State c host bolt peer_json entry_json hints_json net
      → Result Fatal Conn × kin.Peerstore.Store bolt peer_json × World
      → Response × State c host bolt peer_json entry_json hints_json net
      → Type 0
  Agree id s (r, store, w) (resp, s') =
      (s'.store ≡ store) × (s'.world ≡ w) × Answers id r s.served resp s'.served

  connected-Agree :
      (id : ℕ) (t : Token) (later : Time) (r : Result DialError Conn × World)
      (s : State c host bolt peer_json entry_json hints_json net)
      → Agree id s
          (connected c sha256 bolt peer_json net t later s.store r)
          (joined c host bolt peer_json entry_json hints_json net id t later r s)
  unfolding connected joined
  connected-Agree id t later (ok conn, w) s = (refl, refl, (refl, refl))
  connected-Agree id t later (err e, w) s = (refl, refl, (refl, refl))

  dial_direct-Agree :
      (id : ℕ) (t : Token) (later : Time)
      (s : State c host bolt peer_json entry_json hints_json net)
      → Agree id s
          (dial_direct c sha256 bolt peer_json net true t later s.store s.world)
          (dial_token c host bolt peer_json entry_json hints_json net id t later s)
  unfolding dial_direct dial_token
  dial_direct-Agree id t later s = elim (Bool-cases (length t.public_key == 32)) [
    | inr k ↦ rw k (refl, refl, (refl, refl))
    | inl k ↦ elim (Bool-cases (length t.endpoints == 0)) [
      | inl n ↦ rw (k, n) (refl, refl, (refl, refl))
      | inr n ↦
          rw (k, n)
            (connected-Agree id t later (dial net (sha256 t.public_key) t.endpoints s.world) s)
    ]
  ]

  validated-Agree :
      (id : ℕ) (t : Token) (later : Time)
      (r : Result InviteError (Unit {0}) × kin.Peerstore.Store bolt peer_json)
      (s : State c host bolt peer_json entry_json hints_json net)
      → Agree id s
          (validated_direct c sha256 bolt peer_json net true t later r s.world)
          (validated c host bolt peer_json entry_json hints_json net id t later r s)
  unfolding validated_direct validated
  validated-Agree id t later (ok u, store) s =
      dial_direct-Agree id t later (record s { store = store })
  validated-Agree id t later (err e, store) s = (refl, refl, (refl, refl))

  decoded-Agree :
      (id : ℕ) (raw : Bytes) (now later : Time) (r : Result InviteError Token)
      (s : State c host bolt peer_json entry_json hints_json net)
      → Agree id s
          (decoded_direct c sha256 bolt peer_json net true raw now later r s.store s.world)
          (decoded c host bolt peer_json entry_json hints_json net id raw now later r s)
  unfolding decoded_direct decoded
  decoded-Agree id raw now later (ok t) s =
      validated-Agree id t later (validate c (peer_nonces bolt peer_json) now t raw s.store) s
  decoded-Agree id raw now later (err e) s = (refl, refl, (refl, refl))

  -- A join with a token that is not empty, by the command without a daemon, whose socket can be
  -- opened, and by the daemon's handler, with the same clock, peer store and network: they leave the
  -- same peer store and the same network. Where the command has a connection, the handler answers
  -- with its peer's id and has it served, and where the command stops, the handler answers with an
  -- error, which is connect_failed where no connection could be made, and else invalid_token.
  pub join_direct-handle_join :
      (id : ℕ) (raw : Bytes) (now later : Time)
      (s : State c host bolt peer_json entry_json hints_json net)
      → eqb raw [] ≡ false
      → Agree id s
          (join_direct c sha256 bolt peer_json net true raw now later s.store s.world)
          (join_param c host bolt peer_json entry_json hints_json net id (some raw) now later s)
  unfolding join_direct join_param
  join_direct-handle_join id raw now later s given =
      rw given (decoded-Agree id raw now later (decode c raw) s)
