-- ===== src/Daemon/Join/Once.antt =====
-- An invite token joins once.
use mathlib.Core.Path.{subst}
use kin.Base.{
  ◌≢◌, sym, sym, ℕ, ◌≡◌, refl, ◌∙◌, inl, inr, Bool, true, false, Option, none, some, List, [],
  if◌then◌else◌, Bytes, eqb, Result, ok, err, Bool-cases,
}
use kin.Base.Times.{Time}
use kin.Bolt.{Bolt, Json}
use kin.Invite.{Crypto, Token, InviteError, decode, validate}
use kin.Invite.Replay.{Outcome, validate-Outcome, refused_lem}
use kin.Peerstore.{Peer, put_peer}
use kin.Peerstore.Nonces.{peer_nonces}
use kin.Catalog.{Entry, OwnerHint}
use kin.Connmgr.{Network}
use kin.Daemon.{
  Host, ErrorCode, Reply, Response, err_response, unknown_method, internal, invalid_params,
  invalid_token, connect_failed, not_implemented,
}
use kin.Daemon.Join.Kept.{validated-Used, handle_all, handle_all-Used}
use kin.Daemon.Join.{Call, State, validated, decoded, join_param, handle_join}

false_not_true : false ≢ true
false_not_true e = cc

-- A join that got as far as to a connection, or to a failure to connect.
abbrev pub reached : Result ErrorCode Reply → Bool
reached (ok reply) = true
reached (err connect_failed) = true
reached (err unknown_method) = false
reached (err internal) = false
reached (err invalid_params) = false
reached (err invalid_token) = false
reached (err not_implemented) = false

module _ (c : Crypto) (host : Host c) (bolt : Bolt) (peer_json : Json Peer)
    (entry_json : Json Entry) (hints_json : Json (List OwnerHint)) (net : Network) where
  open host use {sha256, string_param}
  open net use {World, Conn}

  abbrev Daemon : Type 0
  Daemon = State c host bolt peer_json entry_json hints_json net

  abbrev Peers : Type 0
  Peers = kin.Peerstore.Store bolt peer_json

  -- The nonce is known to the peer store.
  abbrev Used : Bytes → Peers → Type 0
  Used n s = (peer_nonces bolt peer_json).has_nonce s n ≡ some true

  validated-reached :
      (id : ℕ) (raw : Bytes) (t : Token) (now later : Time)
      (out : Result InviteError (Unit {0}) × Peers) (s : Daemon)
      → Outcome c (peer_nonces bolt peer_json) now t raw s.store out
      → reached
          (validated c host bolt peer_json entry_json hints_json net id t later out s).0.result
        ≡ true
      → Used t.nonce out.1
  unfolding validated
  validated-reached id raw t now later (err e, store) s h r = cc
  validated-reached id raw t now later (ok u, store) s h r = h.recorded

  decoded-reached :
      (id : ℕ) (raw : Bytes) (now later : Time) (d : Result InviteError Token) (s : Daemon)
      → reached
          (decoded c host bolt peer_json entry_json hints_json net id raw now later d s).0.result
        ≡ true
      → (t : Token) × (d ≡ ok t)
        × Used t.nonce
            (decoded c host bolt peer_json entry_json hints_json net id raw now later d s).1.store
  unfolding decoded
  decoded-reached id raw now later (err e) s r = cc
  decoded-reached id raw now later (ok t) s r =
      let out = validate c (peer_nonces bolt peer_json) now t raw s.store in
      (
        t,
        refl,
        validated-Used c host bolt peer_json entry_json hints_json net t.nonce id t later out s (
            validated-reached id raw t now later out s
              (validate-Outcome c (peer_nonces bolt peer_json) now t raw s.store) r),
      )

  -- What a join that got so far has read, and left behind.
  record Spent (param : Option Bytes) (s' : Daemon) : Type 0 where
    raw : Bytes
    t : Token
    read : param ≡ some raw
    full : eqb raw [] ≡ false
    token : decode c raw ≡ ok t
    used : Used t.nonce s'.store

  join_param-Spent :
      (id : ℕ) (param : Option Bytes) (now later : Time) (s : Daemon)
      → reached
          (join_param c host bolt peer_json entry_json hints_json net id param now later s).0.result
        ≡ true
      → Spent param
          (join_param c host bolt peer_json entry_json hints_json net id param now later s).1
  unfolding join_param
  join_param-Spent id none now later s r = cc
  join_param-Spent id (some raw) now later s r =
      let read : Bool → Response × Daemon = λ b.
        if b
        then (err_response id invalid_params, s)
        else decoded c host bolt peer_json entry_json hints_json net id raw now later (decode c raw)
            s in
      elim (Bool-cases (eqb raw [])) [
        | inl nil ↦ absurd (false_not_true (subst (λ b. reached (read b).0.result ≡ true) nil r))
        | inr full ↦
            let (t, token, used) =
              decoded-reached id raw now later (decode c raw) s
                (subst (λ b. reached (read b).0.result ≡ true) full r) in
            record {
              raw = raw;
              t = t;
              read = refl;
              full = full;
              token = token;
              used = subst (λ b. Used t.nonce (read b).1.store) (sym full) used;
            }
      ]

  validated-refused :
      (id : ℕ) (raw : Bytes) (t : Token) (now later : Time)
      (out : Result InviteError (Unit {0}) × Peers) (s : Daemon)
      → Outcome c (peer_nonces bolt peer_json) now t raw s.store out
      → Used t.nonce s.store
      → (validated c host bolt peer_json entry_json hints_json net id t later out s).0.result
        ≡ err invalid_token
  unfolding validated
  validated-refused id raw t now later (err e, store) s h k = refl
  validated-refused id raw t now later (ok u, store) s h k =
      absurd (refused_lem c (peer_nonces bolt peer_json) now t raw s.store (ok u, store) h k refl)

  join_param-refused :
      (id : ℕ) (param : Option Bytes) (now later : Time) (s : Daemon)
      → Spent param s
      → (join_param c host bolt peer_json entry_json hints_json net id param now later s).0.result
        ≡ err invalid_token
  unfolding join_param decoded
  join_param-refused id param now later s spent =
      rw (spent.read, spent.full, spent.token)
        (validated-refused id spent.raw spent.t now later
          (validate c (peer_nonces bolt peer_json) now spent.t spent.raw s.store) s
          (validate-Outcome c (peer_nonces bolt peer_json) now spent.t spent.raw s.store)
          spent.used)

  -- A join that got as far as to a connection, or to a failure to connect, has used its token up:
  -- whatever requests follow, a join with the same token is refused with `invalid_token`, also after
  -- a failure to connect.
  pub handle_join_once :
      (call again : Call) (calls : List Call) (s : Daemon)
      → reached (handle_join c host bolt peer_json entry_json hints_json net call s).0.result ≡ true
      → string_param again.request.params ≡ string_param call.request.params
      → (handle_join c host bolt peer_json entry_json hints_json net again (
          handle_all c host bolt peer_json entry_json hints_json net calls
            (handle_join c host bolt peer_json entry_json hints_json net call s).1)).0.result
        ≡ err invalid_token
  unfolding handle_join
  handle_join_once call again calls s r same =
      let spent =
        join_param-Spent call.request.id (string_param call.request.params) call.now call.later s
          r in
      join_param-refused again.request.id (string_param again.request.params) again.now again.later
        (handle_all c host bolt peer_json entry_json hints_json net calls
          (handle_join c host bolt peer_json entry_json hints_json net call s).1)
        (record {
          raw = spent.raw;
          t = spent.t;
          read = same ∙ spent.read;
          full = spent.full;
          token = spent.token;
          used =
              handle_all-Used c host bolt peer_json entry_json hints_json net spent.t.nonce calls
                (handle_join c host bolt peer_json entry_json hints_json net call s).1 spent.used;
        })
