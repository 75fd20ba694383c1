-- ===== src/Relay/Rendezvous.antt =====
-- Two nodes told of each other, and a node whose older connection closes.
use kin.Base.{
  ℕ, suc, ◌≡◌, refl, ap, ◌∙◌, inl, inr, true, false, none, some, [], ◌∷◌, ◌++◌, ◌==◌, if◌then◌else◌,
  arith, length, Bytes, eqb_iff, Bool-cases,
}
use kin.Relay.{
  RelayMessage, about, Entry, Server, send, deregister, introduce, connect_found, handle_connect,
  State, with_session, Step, leaves,
}

-- A message that is sent goes to the entry's connection.
pub send_wires :
    (e : Entry) (m : RelayMessage) (s : Server) (n : ℕ)
    → (s.wires e.conn).room ≡ suc n
    → send e m s ≡ (
      true,
      record s {
        wires = λ c.
            if c == e.conn
            then record { sent = (s.wires e.conn).sent ++ m ∷ []; room = n }
            else s.wires c;
      },
    )
unfolding send
send_wires e m s n h = rw (send, h) refl

send_sent :
    (e : Entry) (m : RelayMessage) (s : Server) (n c : ℕ)
    → (s.wires e.conn).room ≡ suc n
    → ((send e m s).1.wires c).sent
      ≡ (if c == e.conn then (s.wires c).sent ++ m ∷ [] else (s.wires c).sent)
send_sent e m s n c h = elim (Bool-cases (c == e.conn)) [
  | inl t ↦ let at_conn : c ≡ e.conn = ground arith in rw (send_wires e m s n h, t, at_conn) refl
  | inr f ↦ rw (send_wires e m s n h, f) refl
]

send_elsewhere :
    (e : Entry) (m : RelayMessage) (s : Server) (n c : ℕ)
    → (s.wires e.conn).room ≡ suc n
    → (c == e.conn) ≡ false
    → (send e m s).1.wires c ≡ s.wires c
send_elsewhere e m s n c h f = rw (send_wires e m s n h, f) refl

introduced :
    (requester target : Entry) (target_id : Bytes) (s : Server) (n : ℕ)
    → length target_id ≡ 32
    → s.registry target_id ≡ some target
    → (s.wires target.conn).room ≡ suc n
    → handle_connect requester target_id s
      ≡ (send requester (about target) (send target (about requester) s).1).1
unfolding handle_connect connect_found introduce
introduced requester target target_id s n l r rt =
    let size : (length target_id == 32) ≡ true = ground arith in
    let reached : (send target (about requester) s).0 ≡ true =
      ap (λ p. p.0) (send_wires target (about requester) s n rt) in
    rw (handle_connect, size, r, connect_found, introduce, reached) refl

-- A node that asks for another registered node, on another connection, while both connections work:
-- the target is sent the asking node's id, key and address, the asking node is sent the target's,
-- and no other connection is sent anything.
pub handle_connect-introduces :
    (requester target : Entry) (target_id : Bytes) (s : Server) (n k : ℕ)
    → length target_id ≡ 32
    → s.registry target_id ≡ some target
    → (requester.conn == target.conn) ≡ false
    → (s.wires target.conn).room ≡ suc n
    → (s.wires requester.conn).room ≡ suc k
    → (c : ℕ)
    → ((handle_connect requester target_id s).wires c).sent ≡ (
        if c == requester.conn
        then (s.wires c).sent ++ about target ∷ []
        else if c == target.conn
        then (s.wires c).sent ++ about requester ∷ []
        else (s.wires c).sent)
handle_connect-introduces requester target target_id s n k l r ne rt rr c =
    let told = (send target (about requester) s).1 in
    let apart = send_elsewhere target (about requester) s n requester.conn rt ne in
    let room : (told.wires requester.conn).room ≡ suc k = rw apart rr in
    ap (λ (t : Server). (t.wires c).sent) (introduced requester target target_id s n l r rt)
    ∙ send_sent requester (about target) told k c room
    ∙ ground (arith, send_sent target (about requester) s n c rt)

-- When one of two sessions of the same node ends, the node is no longer registered, though its
-- other session goes on.
pub leaves-unregistered :
    (join_host_port : Bytes → ℕ → Bytes) (st : State) (old new : ℕ) (e f : Entry)
    → st.sessions old ≡ some e
    → st.sessions new ≡ some f
    → e.node_id ≡ f.node_id
    → (new == old) ≡ false
    → (st' : State) × Step join_host_port st st'
      × (st'.sessions new ≡ some f)
      × (st'.server.registry f.node_id ≡ none)
unfolding deregister
leaves-unregistered join st old new e f live_e live_f same ne = (
  record { server = deregister e.node_id st.server; sessions = with_session old none st },
  leaves old e st live_e,
  rw ne live_f,
  rw ((eqb_iff e.node_id f.node_id).1 same) refl,
)
