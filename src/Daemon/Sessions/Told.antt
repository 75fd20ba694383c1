-- ===== src/Daemon/Sessions/Told.antt =====
-- What a subscriber is told of the peers while their connections come and go.
use mathlib.Core.Path.{subst}
use kin.Base.{
  ℕ, ◌+◌, ◌≡◌, inl, inr, refl, sym, ap, ◌∙◌, Bool, true, false, List, [], ◌∷◌, ◌++◌, append-nil,
  append_assoc, ◌==◌, Bytes, arith, Bool-cases,
}
use kin.Base.Times.{Time}
use kin.Bolt.{Bolt, Json}
use kin.Messages.{Message}
use kin.Transfer.{Host}
use kin.Peerstore.{Peer}
use kin.Protocol.Handler.{CatalogExchanger, Conn, dispatch}
use kin.Ipc.{Response, Event}
use kin.Ipc.Framing.{Fits, frame}
use kin.Ipc.Subscribers.{Server, broadcast}
use kin.Ipc.Subscribers.Delivery.{has, IsNodup, takes, broadcast-IsNodup, broadcast-delivered}
use kin.Daemon.{hex_node_id, short_id}
use kin.Daemon.Sessions.{
  event_peer_online, event_peer_offline, event_catalog_updated, Session, Marshal, marshal_data,
  State, online_event, offline_event, broadcast_peer_online, broadcast_peer_offline,
  broadcast_catalog_updated, add_session, accept_conn, begin_serve, receive_message, end_session,
  on_change, Step, accepts, joins, begins, receives, ends, changes, Steps, stay, then_step,
}
use kin.Daemon.Sessions.Counts.{
  Notice, online, offline, updated, onlines, offlines, count, onlines-append, offlines-append,
  count-append,
}

-- The event that a frame carries.
abbrev pub event_of : Marshal → Notice → Event
event_of marshal (online id) = record {
  kind = event_peer_online;
  raw_data = marshal_data (
      marshal.online_info
        (record { node_id = hex_node_id id; node_id_short = short_id (hex_node_id id) }));
}
event_of marshal (offline id) = record {
  kind = event_peer_offline;
  raw_data = marshal_data (marshal.offline_id (hex_node_id id));
}
event_of marshal updated = record { kind = event_catalog_updated; raw_data = [] }

-- The frames of notices, the bodies of their events being `body`.
abbrev pub frames_of : (Notice → Bytes) → List Notice → Bytes
frames_of body [] = []
frames_of body (n ∷ ns) = frame (body n) ++ frames_of body ns

frames_of-append :
    (body : Notice → Bytes) (ns ms : List Notice)
    → frames_of body (ns ++ ms) ≡ frames_of body ns ++ frames_of body ms
frames_of-append body [] ms = refl
frames_of-append body (n ∷ ns) ms =
    ap (λ l. frame (body n) ++ l) (frames_of-append body ns ms)
    ∙ sym (append_assoc (frame (body n)) (frames_of body ns) (frames_of body ms))

false_not_true : {P : Type 0} → false ≡ true → P
false_not_true e = cc

module _ (bolt : Bolt) (json : Json Peer) (exchanger : CatalogExchanger) (host : Host)
    (error_text : Bytes) (events : Json Event) (responses : Json Response) (marshal : Marshal)
    (body : Notice → Bytes) (fits : (n : Notice) → Fits events (event_of marshal n) (body n)) where
  broadcast_told :
      (n : Notice) (i : ℕ) (s : Server)
      → IsNodup s.subscribers
      → has i (broadcast events responses (event_of marshal n) s).subscribers ≡ true
      → (has i s.subscribers ≡ true)
        × (((broadcast events responses (event_of marshal n) s).subs i).outgoing.written
            ≡ (s.subs i).outgoing.written ++ frame (body n))
  broadcast_told n i s nodup h =
      let ev = event_of marshal n in
      let (fate, list) = broadcast-delivered events responses ev (body n) (fits n) i s nodup in
      elim (Bool-cases (has i s.subscribers)) [
        | inr f ↦ false_not_true (sym (list ∙ rw f refl) ∙ h)
        | inl t ↦ elim (Bool-cases (takes events responses ev (body n) (fits n) (s.subs i))) [
          | inr g ↦ false_not_true (sym (list ∙ rw (t, g) refl) ∙ h)
          | inl y ↦ (t, ap (λ x. x.outgoing.written) (rw (t, y) at fate))
        ]
      ]

  abbrev pub Daemon : Type 0
  Daemon = State bolt json exchanger host error_text events responses marshal

  -- A subscriber that is still registered was so before, and has got since then, behind what it had
  -- got, whole frames and nothing else; and of every peer these tell that it came online as often as
  -- they tell that it went offline, but for the change in the number of its connections.
  abbrev pub HasHeard : ℕ → Daemon → Daemon → Type 0
  HasHeard i st st' =
      (has i st.server.subscribers ≡ true)
      × (ns : List Notice) × ((st'.server.subs i).outgoing.written
          ≡ (st.server.subs i).outgoing.written ++ frames_of body ns)
      × ((id : Bytes)
          → onlines id ns + count id st.sessions ≡ offlines id ns + count id st'.sessions)

  record Told (i : ℕ) (st st' : Daemon) : Type 0 where
    nodup : IsNodup st'.server.subscribers
    heard : has i st'.server.subscribers ≡ true → HasHeard i st st'

  one_notice :
      (n : Notice) (i : ℕ) (st st' : Daemon)
      → st'.server ≡ broadcast events responses (event_of marshal n) st.server
      → ((id : Bytes)
          → onlines id (n ∷ []) + count id st.sessions
            ≡ offlines id (n ∷ []) + count id st'.sessions)
      → IsNodup st.server.subscribers
      → Told i st st'
  one_notice n i st st' e balance nodup = record {
    nodup =
        subst (λ (s : Server). IsNodup s.subscribers) (sym e)
          (broadcast-IsNodup events responses (event_of marshal n) (body n) (fits n) st.server
            nodup);
    heard = λ h.
        let (was, wrote) =
          broadcast_told n i st.server nodup
            (subst (λ (s : Server). has i s.subscribers ≡ true) e h) in
        (
          was,
          n ∷ [],
          ap (λ (s : Server). (s.subs i).outgoing.written) e
              ∙ wrote
              ∙ ap (λ l. (st.server.subs i).outgoing.written ++ l)
                  (sym (append-nil (frame (body n)))),
          balance,
        );
  }

  no_notice :
      (i : ℕ) (st st' : Daemon)
      → st'.server ≡ st.server
      → ((id : Bytes) → count id st.sessions ≡ count id st'.sessions)
      → IsNodup st.server.subscribers
      → Told i st st'
  no_notice i st st' e same nodup = record {
    nodup = subst (λ (s : Server). IsNodup s.subscribers) (sym e) nodup;
    heard = λ h. (
      subst (λ (s : Server). has i s.subscribers ≡ true) e h,
      [],
      ap (λ (s : Server). (s.subs i).outgoing.written) e
          ∙ sym (append-nil (st.server.subs i).outgoing.written),
      λ id. omega (arith, same id),
    );
  }

  told_both :
      (i : ℕ) (st st' st'' : Daemon) → HasHeard i st st' → HasHeard i st' st'' → HasHeard i st st''
  told_both i st st' st'' (was, ns, w, b) (was', ms, w', b') = (
    was,
    ns ++ ms,
    w'
        ∙ ap (λ l. l ++ frames_of body ms) w
        ∙ append_assoc (st.server.subs i).outgoing.written (frames_of body ns) (frames_of body ms)
        ∙ ap (λ l. (st.server.subs i).outgoing.written ++ l) (sym (frames_of-append body ns ms)),
    λ id. omega (arith, b id, b' id, onlines-append id ns ms, offlines-append id ns ms),
  )

  add_session-Told :
      (i : ℕ) (c : Conn) (st : Daemon)
      → IsNodup st.server.subscribers
      → Told i st (add_session bolt json exchanger host error_text events responses marshal c st)
  unfolding add_session broadcast_peer_online online_event
  add_session-Told i c st = one_notice (online c.peer_id) i st _ refl (λ id.
      let k = count-append id st.sessions (record { conn = c; serving = false } ∷ []) in
      omega arith)

  accept_conn-Told :
      (i : ℕ) (c : Conn) (now : Time) (st : Daemon)
      → IsNodup st.server.subscribers
      → Told i st
          (accept_conn bolt json exchanger host error_text events responses marshal c now st)
  unfolding accept_conn add_session broadcast_peer_online online_event
  accept_conn-Told i c now st = one_notice (online c.peer_id) i st _ refl (λ id.
      let k = count-append id st.sessions (record { conn = c; serving = false } ∷ []) in
      omega arith)

  begins-Told :
      (i : ℕ) (c : Conn) (before after : List Session) (st : Daemon)
      → st.sessions ≡ before ++ record { conn = c; serving = false } ∷ after
      → IsNodup st.server.subscribers
      → Told i st (record st {
        handler =
            begin_serve bolt json exchanger host error_text events responses marshal c st.handler;
        sessions = before ++ record { conn = c; serving = true } ∷ after;
      })
  begins-Told i c before after st e = no_notice i st _ refl (λ id.
      let k = count-append id before (record { conn = c; serving = false } ∷ after) in
      let l = count-append id before (record { conn = c; serving = true } ∷ after) in
      let old : count id st.sessions
          ≡ count id (before ++ record { conn = c; serving = false } ∷ after) =
        ap (count id) e in
      omega arith)

  receive_message-Told :
      (i : ℕ) (cancelled : ℕ → Bool) (m : Message) (c : Conn) (st : Daemon)
      → IsNodup st.server.subscribers
      → Told i st (
          receive_message bolt json exchanger host error_text events responses marshal cancelled m c
            st)
  unfolding receive_message broadcast_catalog_updated
  receive_message-Told i cancelled m c st nodup =
      let h = (dispatch exchanger host error_text cancelled m c st.handler).1 in
      elim (Bool-cases (h.updates == st.handler.updates)) [
        | inl e ↦ rw e (no_notice i st _ refl (λ id. refl) nodup)
        | inr e ↦ rw e (one_notice updated i st _ refl (λ id. refl) nodup)
      ]

  on_change-Told :
      (i : ℕ) (cs : List Conn) (st : Daemon)
      → IsNodup st.server.subscribers
      → Told i st (on_change bolt json exchanger host error_text events responses marshal cs st)
  unfolding on_change broadcast_catalog_updated
  on_change-Told i cs st = one_notice updated i st _ refl (λ id. refl)

  ends-Told :
      (i : ℕ) (c : Conn) (before after : List Session) (st : Daemon)
      → st.sessions ≡ before ++ record { conn = c; serving = true } ∷ after
      → IsNodup st.server.subscribers
      → Told i st (
          end_session bolt json exchanger host error_text events responses marshal c
            (record st { sessions = before ++ after }))
  unfolding end_session broadcast_peer_offline offline_event
  ends-Told i c before after st e = one_notice (offline c.peer_id) i st _ refl (λ id.
      let k = count-append id before (record { conn = c; serving = true } ∷ after) in
      let l = count-append id before after in
      let old : count id st.sessions
          ≡ count id (before ++ record { conn = c; serving = true } ∷ after) =
        ap (count id) e in
      omega arith)

  Step-Told :
      {st st' : Daemon} (i : ℕ)
      → Step bolt json exchanger host error_text events responses marshal st st'
      → IsNodup st.server.subscribers
      → Told i st st'
  Step-Told i (accepts c now st) = accept_conn-Told i c now st
  Step-Told i (joins c st) = add_session-Told i c st
  Step-Told i (begins c before after st e) = begins-Told i c before after st e
  Step-Told i (receives c m cancelled before after st e) = receive_message-Told i cancelled m c st
  Step-Told i (ends c before after st e) = ends-Told i c before after st e
  Step-Told i (changes cs st) = on_change-Told i cs st

  Steps-Told :
      {st st' : Daemon} (i : ℕ)
      → Steps bolt json exchanger host error_text events responses marshal st st'
      → IsNodup st.server.subscribers
      → Told i st st'
  Steps-Told {st} i stay nodup = no_notice i st st refl (λ id. refl) nodup
  Steps-Told {st} {st'} i (then_step {u} steps step) nodup =
      let first = Steps-Told i steps nodup in
      let second = Step-Told i step first.nodup in
      record {
        nodup = second.nodup;
        heard = λ h. let last = second.heard h in told_both i st u st' (first.heard last.0) last;
      }

  -- Where every event fits into a message and no subscriber is registered twice: whatever the
  -- connections of the peers do, and in whatever order the steps of their goroutines come, a
  -- subscriber that is registered behind them was so before, and has got in between whole frames and
  -- nothing else. Of every peer these tell as often that it came online as that it went offline, but
  -- for the change in the number of its connections.
  pub Steps-HasHeard :
      {st st' : Daemon} (i : ℕ)
      → Steps bolt json exchanger host error_text events responses marshal st st'
      → IsNodup st.server.subscribers
      → has i st'.server.subscribers ≡ true
      → HasHeard i st st'
  Steps-HasHeard i steps nodup = (Steps-Told i steps nodup).heard
