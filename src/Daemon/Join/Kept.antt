-- ===== src/Daemon/Join/Kept.antt =====
-- No request makes the peer store forget a nonce.
use kin.Base.{
  ℕ, ◌≡◌, ap, ◌∙◌, inl, inr, true, not, Option, none, some, List, [], ◌∷◌, ◌==◌, length, Bytes, eqb,
  Result, ok, err, Bool-cases,
}
use kin.Base.Times.{Time}
use kin.Bolt.{Bolt, Json}
use kin.Invite.{Crypto, Token, InviteError, decode, validate}
use kin.Invite.Replay.{validate-Outcome, Outcome-keeps}
use kin.Peerstore.{Peer, put_peer}
use kin.Peerstore.Nonces.{peer_nonces, has_nonce-put_peer}
use kin.Catalog.{Entry, OwnerHint}
use kin.Connmgr.{DialError, Network, dial}
use kin.Daemon.{Host, Method, status, peers, invite, join, catalog, download, other_method}
use kin.Daemon.Join.{
  Call, State, dispatch, joined, dial_token, validated, decoded, join_param, handle_join, handle,
}

module _ (c : Crypto) (host : Host c) (bolt : Bolt) (peer_json : Json Peer)
    (entry_json : Json Entry) (hints_json : Json (List OwnerHint)) (net : Network) where
  open host use {sha256, string_param}
  open net use {World, Conn}

  abbrev Daemon : Type 0
  Daemon = State c host bolt peer_json entry_json hints_json net

  abbrev Peers : Type 0
  Peers = kin.Peerstore.Store bolt peer_json

  -- The nonce is known to the peer store.
  abbrev Used : Bytes → Peers → Type 0
  Used n s = (peer_nonces bolt peer_json).has_nonce s n ≡ some true

  put_peer-Used :
      (n : Bytes) (p : Peer) (now : Time) (s : Peers)
      → Used n s
      → Used n (put_peer bolt peer_json p now s).1
  put_peer-Used n p now s k = ap some (has_nonce-put_peer bolt peer_json p now s n) ∙ k

  joined-Used :
      (n : Bytes) (id : ℕ) (t : Token) (later : Time) (out : Result DialError Conn × World)
      (s : Daemon)
      → Used n s.store
      → Used n (joined c host bolt peer_json entry_json hints_json net id t later out s).1.store
  unfolding joined
  joined-Used n id t later (err e, w) s k = k
  joined-Used n id t later (ok conn, w) s k = put_peer-Used n _ later s.store k

  dial_token-Used :
      (n : Bytes) (id : ℕ) (t : Token) (later : Time) (s : Daemon)
      → Used n s.store
      → Used n (dial_token c host bolt peer_json entry_json hints_json net id t later s).1.store
  unfolding dial_token
  dial_token-Used n id t later s k = elim (Bool-cases (not (length t.public_key == 32))) [
    | inl short ↦ rw short k
    | inr long ↦ elim (Bool-cases (length t.endpoints == 0)) [
      | inl empty ↦ rw (long, empty) k
      | inr full ↦
          rw (long, full)
            (joined-Used n id t later (dial net (sha256 t.public_key) t.endpoints s.world) s k)
    ]
  ]

  pub validated-Used :
      (n : Bytes) (id : ℕ) (t : Token) (later : Time) (out : Result InviteError (Unit {0}) × Peers)
      (s : Daemon)
      → Used n out.1
      → Used n (validated c host bolt peer_json entry_json hints_json net id t later out s).1.store
  unfolding validated
  validated-Used n id t later (err e, store) s k = k
  validated-Used n id t later (ok u, store) s k =
      dial_token-Used n id t later (record s { store = store }) k

  decoded-Used :
      (n : Bytes) (id : ℕ) (raw : Bytes) (now later : Time) (t : Result InviteError Token)
      (s : Daemon)
      → Used n s.store
      → Used n
          (decoded c host bolt peer_json entry_json hints_json net id raw now later t s).1.store
  unfolding decoded
  decoded-Used n id raw now later (err e) s k = k
  decoded-Used n id raw now later (ok t) s k =
      validated-Used n id t later (validate c (peer_nonces bolt peer_json) now t raw s.store) s (
        Outcome-keeps c (peer_nonces bolt peer_json) now t raw n s.store
          (validate c (peer_nonces bolt peer_json) now t raw s.store)
          (validate-Outcome c (peer_nonces bolt peer_json) now t raw s.store) k)

  join_param-Used :
      (n : Bytes) (id : ℕ) (param : Option Bytes) (now later : Time) (s : Daemon)
      → Used n s.store
      → Used n
          (join_param c host bolt peer_json entry_json hints_json net id param now later s).1.store
  unfolding join_param
  join_param-Used n id none now later s k = k
  join_param-Used n id (some raw) now later s k = elim (Bool-cases (eqb raw [])) [
    | inl nil ↦ rw nil k
    | inr full ↦ rw full (decoded-Used n id raw now later (decode c raw) s k)
  ]

  -- Any requests, one after the other.
  unfoldable pub handle_all : List Call → Daemon → Daemon
  handle_all [] s = s
  handle_all (call ∷ calls) s =
      handle_all calls (handle c host bolt peer_json entry_json hints_json net call s).1

  dispatch-Used :
      (n : Bytes) (m : Method) (call : Call) (s : Daemon)
      → Used n s.store
      → Used n (dispatch c host bolt peer_json entry_json hints_json net m call s).1.store
  unfolding handle_join
  dispatch-Used n status call s k = k
  dispatch-Used n peers call s k = k
  dispatch-Used n invite call s k = k
  dispatch-Used n join call s k =
      join_param-Used n call.request.id (string_param call.request.params) call.now call.later s k
  dispatch-Used n catalog call s k = k
  dispatch-Used n download call s k = k
  dispatch-Used n (other_method m) call s k = k

  pub handle_all-Used :
      (n : Bytes) (calls : List Call) (s : Daemon)
      → Used n s.store
      → Used n (handle_all calls s).store
  unfolding handle_all handle
  handle_all-Used n [] s k = k
  handle_all-Used n (call ∷ calls) s k =
      handle_all-Used n calls (handle c host bolt peer_json entry_json hints_json net call s).1
        (dispatch-Used n call.request.method call s k)
