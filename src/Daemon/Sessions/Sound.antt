-- ===== src/Daemon/Sessions/Sound.antt =====
-- Which connections are registered.
use mathlib.Core.Path.{subst}
use kin.Base.{
  ℕ, ◌≡◌, ◌⊎◌, inl, inr, refl, sym, ap, ◌∙◌, Bool, true, false, Option, none, some, some_injective,
  List, [], ◌∷◌, ◌++◌, ◌==◌, Bytes, eqb, eqb_iff, if◌then◌else◌, Bool-cases,
}
use kin.Base.Times.{Time}
use kin.Bolt.{Bolt, Json}
use kin.Messages.{Message}
use kin.Transfer.{Host}
use kin.Peerstore.{Peer}
use kin.Protocol.Handler.{CatalogExchanger, Conn, dispatch, register_conn, unregister_conn}
use kin.Protocol.Handler.Dispatch.{dispatch-Leaves}
use kin.Protocol.Handler.Registered.{offer-conns, broadcast_catalog-conns}
use kin.Ipc.{Response, Event}
use kin.Daemon.Sessions.{
  Session, Marshal, State, broadcast_peer_online, broadcast_peer_offline, broadcast_catalog_updated,
  add_session, accept_conn, begin_serve, receive_message, end_session, on_change, Step, accepts,
  joins, begins, receives, ends, changes, Steps, stay, then_step,
}
use kin.Daemon.Sessions.Counts.{
  IsServed, IsServed-append, IsServed-begun, IsServed-here, IsServed-ended,
}

either :
    (b : Bool) (x y : Option Conn) {d : Conn}
    → (if b then x else y) ≡ some d
    → ((b ≡ true) × (x ≡ some d)) ⊎ ((b ≡ false) × (y ≡ some d))
either true x y h = inl (refl, h)
either false x y h = inr (refl, h)

module _ (bolt : Bolt) (json : Json Peer) (exchanger : CatalogExchanger) (host : Host)
    (error_text : Bytes) (events : Json Event) (responses : Json Response) (marshal : Marshal) where
  -- Each registered connection is one of its peer's that is being served.
  pub record IsSound (st : State bolt json exchanger host error_text events responses marshal)
      : Type 0 where
    pub registered :
        (id : Bytes) (c : Conn)
        → st.handler.conns id ≡ some c
        → (c.peer_id ≡ id) × IsServed c st.sessions

  add_session-IsSound :
      (c : Conn) (st : State bolt json exchanger host error_text events responses marshal)
      → IsSound st
      → IsSound (add_session bolt json exchanger host error_text events responses marshal c st)
  unfolding add_session broadcast_peer_online
  add_session-IsSound c st s = record {
    registered = λ id d e.
        let (own, served) = s.registered id d e in
        (own, IsServed-append d st.sessions (record { conn = c; serving = false } ∷ []) served);
  }

  accept_conn-IsSound :
      (c : Conn) (now : Time)
      (st : State bolt json exchanger host error_text events responses marshal)
      → IsSound st
      → IsSound (accept_conn bolt json exchanger host error_text events responses marshal c now st)
  unfolding accept_conn
  accept_conn-IsSound c now st s = add_session-IsSound c _ (record { registered = s.registered })

  begins-IsSound :
      (c : Conn) (before after : List Session)
      (st : State bolt json exchanger host error_text events responses marshal)
      → st.sessions ≡ before ++ record { conn = c; serving = false } ∷ after
      → IsSound st
      → IsSound (record st {
        handler =
            begin_serve bolt json exchanger host error_text events responses marshal c st.handler;
        sessions = before ++ record { conn = c; serving = true } ∷ after;
      })
  unfolding begin_serve register_conn
  begins-IsSound c before after st e s = record {
    registered = λ id d f.
        let same =
          offer-conns exchanger host error_text c
            (register_conn exchanger host error_text c st.handler) in
        let f' : (register_conn exchanger host error_text c st.handler).conns id ≡ some d =
          ap (λ g. g id) (sym same) ∙ f in
        let here = IsServed-here c before after in
        elim (either (eqb c.peer_id id) (some c) (st.handler.conns id) f') [
          | inl (own, g) ↦
              let same_conn : c ≡ d = some_injective g in
              (
                ap (λ (x : Conn). x.peer_id) (sym same_conn) ∙ (eqb_iff c.peer_id id).0 own,
                subst (λ x. IsServed x (before ++ record { conn = c; serving = true } ∷ after))
                    same_conn here,
              )
          | inr (other, g) ↦
              let (own, served) = s.registered id d g in
              (own, IsServed-begun c d before after (subst (IsServed d) e served))
        ];
  }

  -- What a step on the handler leaves sound: one that leaves the registrations.
  handler-IsSound :
      (st st' : State bolt json exchanger host error_text events responses marshal)
      → st'.sessions ≡ st.sessions
      → st'.handler.conns ≡ st.handler.conns
      → IsSound st
      → IsSound st'
  handler-IsSound st st' b c s = record {
    registered = λ id d f. rw b (s.registered id d (ap (λ g. g id) (sym c) ∙ f));
  }

  receive_message-IsSound :
      (cancelled : ℕ → Bool) (m : Message) (c : Conn)
      (st : State bolt json exchanger host error_text events responses marshal)
      → IsSound st
      → IsSound (
          receive_message bolt json exchanger host error_text events responses marshal cancelled m c
            st)
  unfolding receive_message broadcast_catalog_updated
  receive_message-IsSound cancelled m c st s =
      let h = (dispatch exchanger host error_text cancelled m c st.handler).1 in
      let same = (dispatch-Leaves exchanger host error_text cancelled m c st.handler).conns in
      elim (Bool-cases (h.updates == st.handler.updates)) [
        | inl e ↦ rw e (handler-IsSound st _ refl same s)
        | inr e ↦ rw e (handler-IsSound st _ refl same s)
      ]

  on_change-IsSound :
      (cs : List Conn) (st : State bolt json exchanger host error_text events responses marshal)
      → IsSound st
      → IsSound (on_change bolt json exchanger host error_text events responses marshal cs st)
  unfolding on_change broadcast_catalog_updated
  on_change-IsSound cs st s =
      handler-IsSound st _ refl (broadcast_catalog-conns exchanger host error_text cs st.handler) s

  ends-IsSound :
      (c : Conn) (before after : List Session)
      (st : State bolt json exchanger host error_text events responses marshal)
      → st.sessions ≡ before ++ record { conn = c; serving = true } ∷ after
      → IsSound st
      → IsSound (
          end_session bolt json exchanger host error_text events responses marshal c
            (record st { sessions = before ++ after }))
  unfolding end_session broadcast_peer_offline unregister_conn
  ends-IsSound c before after st e s = record {
    registered = λ id d f. elim (either (eqb c.peer_id id) none (st.handler.conns id) f) [
      | inl (own, g) ↦ cc
      | inr (other, g) ↦
          let (own, served) = s.registered id d g in
          (own, IsServed-ended c d before after (rw own other) (subst (IsServed d) e served))
    ];
  }

  Step-IsSound :
      {st st' : State bolt json exchanger host error_text events responses marshal}
      → Step bolt json exchanger host error_text events responses marshal st st'
      → IsSound st
      → IsSound st'
  Step-IsSound (accepts c now st) s = accept_conn-IsSound c now st s
  Step-IsSound (joins c st) s = add_session-IsSound c st s
  Step-IsSound (begins c before after st e) s = begins-IsSound c before after st e s
  Step-IsSound (receives c m cancelled before after st e) s =
      receive_message-IsSound cancelled m c st s
  Step-IsSound (ends c before after st e) s = ends-IsSound c before after st e s
  Step-IsSound (changes cs st) s = on_change-IsSound cs st s

  -- From a sound state, whatever the connections of the peers do, and in whatever order the steps
  -- of their goroutines come: every registered connection stands under the id of its peer and is one
  -- of those that are being served.
  pub Steps-IsSound :
      {st st' : State bolt json exchanger host error_text events responses marshal}
      → Steps bolt json exchanger host error_text events responses marshal st st'
      → IsSound st
      → IsSound st'
  Steps-IsSound stay s = s
  Steps-IsSound (then_step steps step) s = Step-IsSound step (Steps-IsSound steps s)
