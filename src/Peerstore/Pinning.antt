-- ===== src/Peerstore/Pinning.antt =====
-- What `PutPeer` writes, and that a node's key, once pinned, stays.
use mathlib.Core.Path.{subst}
use kin.Base.{
  ◌≡◌, ◌≢◌, refl, sym, ap, ◌∙◌, inl, inr, not, Option, none, some, List, [], ◌∷◌, if◌then◌else◌,
  arith, Bytes, eqb, eqb_iff, Result, ok, err, ◌>>=◌, Bool-cases, >>=-eq-ok, ok_injective,
  some_injective,
}
use kin.Base.Times.{Time}
use kin.Bolt.{Bolt, Json, or_fail, or_fail-eq-ok, update-eq-ok, update-keeps}
use kin.Peerstore.{
  Peer, StoreError, key_changed, marshal_failed, put_failed, merge_endpoints, Store, merged,
  stamped, parsed, check_known, decoded, write_peer, put_peer_tx, put_peer, get_peer, touch,
  update_last_seen_tx, update_last_seen, save_nonce_tx, save_nonce,
}

-- The peer that `PutPeer` writes, given the one that is known.
unfoldable pub expected : Option Peer → Peer → Time → Result StoreError Peer
expected none p now = ok (stamped now p)
expected (some prev) p now =
    if not (eqb prev.public_key p.public_key)
    then err key_changed
    else ok (stamped now (record p { endpoints = merge_endpoints prev.endpoints p.endpoints }))

check_known-expected :
    (p : Peer) (now : Time) (u : Option Peer) (known : Option Peer)
    → parsed u ≡ ok known
    → (check_known p u >>= λ m. ok (stamped now m)) ≡ expected known p now
unfolding check_known expected
check_known-expected p now none known e = cc
check_known-expected p now (some prev) known e =
    subst (λ k. (check_known p (some prev) >>= λ m. ok (stamped now m)) ≡ expected k p now)
      (ok_injective refl e)
      (elim (Bool-cases (not (eqb prev.public_key p.public_key))) [
        | inl t ↦ rw t refl
        | inr f ↦ rw f refl
      ])

check_known-changed :
    (p prev : Peer) (u : Option Peer)
    → parsed u ≡ ok (some prev)
    → prev.public_key ≢ p.public_key
    → check_known p u ≡ err key_changed
unfolding check_known
check_known-changed p prev none e ne = cc
check_known-changed p prev (some q) e ne =
    let same : q ≡ prev = cc in rw same (ground (arith, eqb_iff prev.public_key p.public_key))

expected_key :
    (p prev m : Peer) (now : Time)
    → expected (some prev) p now ≡ ok m
    → m.public_key ≡ prev.public_key
unfolding expected
expected_key p prev m now e = ground (arith, eqb_iff prev.public_key p.public_key)

check_known-known :
    (p m : Peer) (u : Option Peer)
    → check_known p u ≡ ok m
    → (known : Option Peer) × (parsed u ≡ ok known)
unfolding check_known
check_known-known p m none e = cc
check_known-known p m (some prev) e = (some prev, refl)

-- The calls that write.
pub data Call : Type 0 where
  storing : Peer → Time → Call
  seeing : Bytes → Time → Call
  saving : Bytes → Call

module _ (bolt : Bolt) (json : Json Peer) where
  open bolt use {Bucket, get, put, get-put}
  open json use {marshal, unmarshal, repair, unmarshal-marshal}

  -- After a write of `m` under `key`, that key has what JSON keeps of `m`, and all else is as before.
  pub record Wrote (key : Bytes) (m : Peer) (s s' : Store bolt json) : Type 0 where
    pub found :
        (j : Bytes)
        → get_peer bolt json s' j
          ≡ (if eqb key j then ok (some (repair m)) else get_peer bolt json s j)
    pub nonces : s'.nonces ≡ s.nonces

  read_back :
      (key raw : Bytes) (m : Peer) (j : Bytes) (o : Option Bytes)
      → marshal m ≡ some raw
      → decoded bolt json (if eqb key j then some raw else o)
        ≡ (if eqb key j then ok (some (repair m)) else decoded bolt json o)
  read_back key raw m j o e = elim (Bool-cases (eqb key j)) [
    | inl t ↦ rw t (rw (unmarshal-marshal m raw e, decoded) refl)
    | inr f ↦ rw f refl
  ]

  wrote_lem :
      (key raw : Bytes) (m : Peer) (s : Store bolt json) (peers : Bucket)
      → marshal m ≡ some raw
      → put s.peers key raw ≡ some peers
      → Wrote key m s (record s { peers = peers })
  unfolding get_peer
  wrote_lem key raw m s peers e h = record {
    found = λ j.
        ap (decoded bolt json) (get-put s.peers peers key raw j h)
        ∙ read_back key raw m j (get s.peers j) e;
    nonces = refl;
  }

  write_peer-Wrote :
      (key : Bytes) (m : Peer) (s s' : Store bolt json)
      → write_peer bolt json key m s ≡ ok s'
      → Wrote key m s s'
  unfolding write_peer
  write_peer-Wrote key m s s' e =
      let (raw, e1, rest) = >>=-eq-ok (or_fail (marshal m) marshal_failed) _ e in
      let (peers, e2, last) = >>=-eq-ok (or_fail (put s.peers key raw) put_failed) _ rest in
      subst (Wrote key m s) (ok_injective refl last) (
        wrote_lem key raw m s peers (or_fail-eq-ok (marshal m) marshal_failed e1)
          (or_fail-eq-ok _ put_failed e2))

  -- Reading the known peer and merging gives the expected peer, up to the stamp.
  merged-expected :
      (p : Peer) (now : Time) (o : Option Bytes) (known : Option Peer)
      → decoded bolt json o ≡ ok known
      → (merged bolt json p o >>= λ m. ok (stamped now m)) ≡ expected known p now
  unfolding merged expected
  merged-expected p now none none e = refl
  merged-expected p now none (some prev) e = cc
  merged-expected p now (some raw) known e = check_known-expected p now (unmarshal raw) known e

  merged-known :
      (p m : Peer) (o : Option Bytes)
      → merged bolt json p o ≡ ok m
      → (known : Option Peer) × (decoded bolt json o ≡ ok known)
  unfolding merged
  merged-known p m none e = (none, refl)
  merged-known p m (some raw) e = check_known-known p m (unmarshal raw) e

  put_peer_tx-expected :
      (p : Peer) (now : Time) (s s' : Store bolt json)
      → put_peer_tx bolt json p now s ≡ ok s'
      → (known : Option Peer) × (m : Peer) × (get_peer bolt json s p.node_id ≡ ok known)
        × (expected known p now ≡ ok m)
        × Wrote p.node_id m s s'
  unfolding put_peer_tx get_peer
  put_peer_tx-expected p now s s' done =
      let (m, e1, e2) = >>=-eq-ok (merged bolt json p (get s.peers p.node_id)) _ done in
      let (known, e) = merged-known p m (get s.peers p.node_id) e1 in
      (
        known,
        stamped now m,
        e,
        sym (merged-expected p now (get s.peers p.node_id) known e)
            ∙ ap (λ r. r >>= λ m. ok (stamped now m)) e1,
        write_peer-Wrote p.node_id (stamped now m) s s' e2,
      )

  -- The same of `PutPeer`.
  pub put_peer-expected :
      (p : Peer) (now : Time) (s s' : Store bolt json)
      → put_peer bolt json p now s ≡ (ok tt, s')
      → (known : Option Peer) × (m : Peer) × (get_peer bolt json s p.node_id ≡ ok known)
        × (expected known p now ≡ ok m)
        × Wrote p.node_id m s s'
  unfolding put_peer
  put_peer-expected p now s s' h = put_peer_tx-expected p now s s' (update-eq-ok s _ h)

  pub put_peer-nonces :
      (p : Peer) (now : Time) (s : Store bolt json)
      → (put_peer bolt json p now s).1.nonces ≡ s.nonces
  unfolding put_peer
  put_peer-nonces p now s =
      update-keeps (λ (s' : Store bolt json). s'.nonces ≡ s.nonces) s
        (put_peer_tx bolt json p now s) refl
        (λ s' done. let (known, m, e, x, w) = put_peer_tx-expected p now s s' done in w.nonces)

  merged-changed :
      (p prev : Peer) (o : Option Bytes)
      → decoded bolt json o ≡ ok (some prev)
      → prev.public_key ≢ p.public_key
      → merged bolt json p o ≡ err key_changed
  unfolding merged
  merged-changed p prev none e ne = cc
  merged-changed p prev (some raw) e ne = check_known-changed p prev (unmarshal raw) e ne

  -- `PutPeer` of a known node with another key is refused, and nothing is written.
  put_peer-key_changed :
      (p prev : Peer) (now : Time) (s : Store bolt json)
      → get_peer bolt json s p.node_id ≡ ok (some prev)
      → prev.public_key ≢ p.public_key
      → put_peer bolt json p now s ≡ (err key_changed, s)
  unfolding put_peer get_peer
  put_peer-key_changed p prev now s e ne =
      rw (merged-changed p prev (get s.peers p.node_id) e ne) refl

  -- The key that is on record for a node.
  pub record IsPinned (node_id key : Bytes) (s : Store bolt json) : Type 0 where
    pub peer : Peer
    pub known : get_peer bolt json s node_id ≡ ok (some peer)
    pub pinned : peer.public_key ≡ key

  module _ (repair-public_key : (p : Peer) → (repair p).public_key ≡ p.public_key) where
    -- A write keeps a pin if it is of another peer, or has the same key.
    Wrote-IsPinned :
        (node_id key at : Bytes) (m : Peer) (s s' : Store bolt json)
        → Wrote at m s s'
        → (at ≡ node_id → m.public_key ≡ key)
        → IsPinned node_id key s
        → IsPinned node_id key s'
    Wrote-IsPinned node_id key at m s s' w same pin = elim (Bool-cases (eqb at node_id)) [
      | inl t ↦ record {
        peer = repair m;
        known = w.found node_id ∙ rw t refl;
        pinned = repair-public_key m ∙ same ((eqb_iff at node_id).0 t);
      }
      | inr f ↦ record {
        peer = pin.peer;
        known = w.found node_id ∙ rw f pin.known;
        pinned = pin.pinned;
      }
    ]

    known_eq :
        (node_id key at : Bytes) (s : Store bolt json) (known : Option Peer)
        → at ≡ node_id
        → get_peer bolt json s at ≡ ok known
        → (pin : IsPinned node_id key s) → known ≡ some pin.peer
    known_eq node_id key at s known same e pin = ok_injective e (rw same pin.known)

    same_key :
        (node_id key : Bytes) (p m : Peer) (now : Time) (s : Store bolt json) (known : Option Peer)
        → p.node_id ≡ node_id
        → get_peer bolt json s p.node_id ≡ ok known
        → expected known p now ≡ ok m
        → IsPinned node_id key s
        → m.public_key ≡ key
    same_key node_id key p m now s known same e x pin =
        let one : known ≡ some pin.peer = known_eq node_id key p.node_id s known same e pin in
        expected_key p pin.peer m now (subst (λ k. expected k p now ≡ ok m) one x) ∙ pin.pinned

    touch-IsPinned :
        (node_id key at : Bytes) (now : Time) (known : Option Peer) (s s' : Store bolt json)
        → get_peer bolt json s at ≡ ok known
        → touch bolt json at now known s ≡ ok s'
        → IsPinned node_id key s
        → IsPinned node_id key s'
    unfolding touch
    touch-IsPinned node_id key at now none s s' e t pin =
        subst (IsPinned node_id key) (ok_injective refl t) pin
    touch-IsPinned node_id key at now (some p) s s' e t pin =
        Wrote-IsPinned node_id key at (record p { last_seen = now }) s s'
          (write_peer-Wrote at (record p { last_seen = now }) s s' t)
          (λ same.
            ap (λ (q : Peer). q.public_key)
              (some_injective (known_eq node_id key at s (some p) same e pin))
            ∙ pin.pinned)
          pin

    put_peer-IsPinned :
        (node_id key : Bytes) (p : Peer) (now : Time) (s : Store bolt json)
        → IsPinned node_id key s
        → IsPinned node_id key (put_peer bolt json p now s).1
    unfolding put_peer
    put_peer-IsPinned node_id key p now s pin =
        update-keeps (IsPinned node_id key) s (put_peer_tx bolt json p now s) pin (λ s' done.
          let (known, m, e, x, w) = put_peer_tx-expected p now s s' done in
          Wrote-IsPinned node_id key p.node_id m s s' w
            (λ same. same_key node_id key p m now s known same e x pin) pin)

    update_last_seen-IsPinned :
        (node_id key at : Bytes) (now : Time) (s : Store bolt json)
        → IsPinned node_id key s
        → IsPinned node_id key (update_last_seen bolt json at now s).1
    unfolding update_last_seen update_last_seen_tx get_peer
    update_last_seen-IsPinned node_id key at now s pin =
        update-keeps (IsPinned node_id key) s (update_last_seen_tx bolt json at now s) pin
          (λ s' done.
            let (known, e, rest) = >>=-eq-ok (decoded bolt json (get s.peers at)) _ done in
            touch-IsPinned node_id key at now known s s' e rest pin)

    save_nonce-IsPinned :
        (node_id key nonce : Bytes) (s : Store bolt json)
        → IsPinned node_id key s
        → IsPinned node_id key (save_nonce bolt json nonce s).1
    unfolding save_nonce save_nonce_tx get_peer
    save_nonce-IsPinned node_id key nonce s pin =
        update-keeps (IsPinned node_id key) s (save_nonce_tx bolt json nonce s) pin (λ s' done.
          let (nonces, e, last) = >>=-eq-ok (or_fail (put s.nonces nonce []) put_failed) _ done in
          subst (IsPinned node_id key) (ok_injective refl last)
            (record { peer = pin.peer; known = pin.known; pinned = pin.pinned }))

    -- One call, and calls in any order.
    pub call : Call → Store bolt json → Store bolt json
    call (storing p now) s = (put_peer bolt json p now s).1
    call (seeing node_id now) s = (update_last_seen bolt json node_id now s).1
    call (saving n) s = (save_nonce bolt json n s).1

    pub calls : List Call → Store bolt json → Store bolt json
    calls [] s = s
    calls (c ∷ rest) s = calls rest (call c s)

    call-IsPinned :
        (node_id key : Bytes) (c : Call) (s : Store bolt json)
        → IsPinned node_id key s
        → IsPinned node_id key (call c s)
    unfolding call
    call-IsPinned node_id key (storing p now) s pin = put_peer-IsPinned node_id key p now s pin
    call-IsPinned node_id key (seeing at now) s pin =
        update_last_seen-IsPinned node_id key at now s pin
    call-IsPinned node_id key (saving n) s pin = save_nonce-IsPinned node_id key n s pin

    -- Trust on first use: the key under which a node is on record stays that node's key, whatever
    -- calls follow and whatever they return.
    pub calls-IsPinned :
        (node_id key : Bytes) (history : List Call) (s : Store bolt json)
        → IsPinned node_id key s
        → IsPinned node_id key (calls history s)
    unfolding calls
    calls-IsPinned node_id key [] s pin = pin
    calls-IsPinned node_id key (c ∷ rest) s pin =
        calls-IsPinned node_id key rest (call c s) (call-IsPinned node_id key c s pin)
