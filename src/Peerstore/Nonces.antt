-- ===== src/Peerstore/Nonces.antt =====
-- The peer store as the nonce store of invitations.
use mathlib.Core.Path.{subst}
use kin.Base.{
  ◌≡◌, refl, sym, ap, ◌∙◌, Bool, true, false, Option, none, some, [], if◌then◌else◌, Bytes, eqb,
  Result, ok, err, >>=-eq-ok, ok_injective, some_injective,
}
use kin.Bolt.{Bolt, Json, or_fail, or_fail-eq-ok, update-eq-ok}
use kin.Invite.{NonceStore}
use kin.Peerstore.{
  Peer, StoreError, put_failed, Store, present, has_nonce, save_nonce, save_nonce_tx, put_peer,
}
use kin.Peerstore.Pinning.{put_peer-nonces}
use kin.Base.Times.{Time}

present-if :
    (b : Bool) (raw : Bytes) (o : Option Bytes)
    → present (if b then some raw else o) ≡ (if b then true else present o)
present-if true raw o = refl
present-if false raw o = refl

some-if : (b x : Bool) → some (if b then true else x) ≡ (if b then some true else some x)
some-if true x = refl
some-if false x = refl

module _ (bolt : Bolt) (json : Json Peer) where
  open bolt use {Bucket, get, put, get-put}

  -- A nonce that was saved is found, and saving it changes neither the other nonces nor the peers.
  pub has_nonce-save_nonce :
      (nonce : Bytes) (s s' : Store bolt json)
      → save_nonce bolt json nonce s ≡ (ok tt, s')
      → ((m : Bytes)
          → has_nonce bolt json s' m ≡ (if eqb nonce m then true else has_nonce bolt json s m))
        × (s'.peers ≡ s.peers)
  unfolding save_nonce save_nonce_tx has_nonce
  has_nonce-save_nonce nonce s s' h =
      let (nonces, e, last) =
        >>=-eq-ok (or_fail (put s.nonces nonce []) put_failed) _ (update-eq-ok s _ h) in
      let same : record s { nonces = nonces } ≡ s' = ok_injective refl last in
      let stored = or_fail-eq-ok (put s.nonces nonce []) put_failed e in
      (
        λ m.
            subst
              (λ (t : Store bolt json).
                has_nonce bolt json t m ≡ (if eqb nonce m then true else has_nonce bolt json s m))
              same
              (ap present (get-put s.nonces nonces nonce [] m stored)
                ∙ present-if (eqb nonce m) [] (get s.nonces m)),
        ap (λ (t : Store bolt json). t.peers) (sym same),
      )

  pub has_nonce-put_peer :
      (p : Peer) (now : Time) (s : Store bolt json) (n : Bytes)
      → has_nonce bolt json (put_peer bolt json p now s).1 n ≡ has_nonce bolt json s n
  unfolding has_nonce
  has_nonce-put_peer p now s n =
      ap (λ (b : Bucket). present (get b n)) (put_peer-nonces bolt json p now s)

  abbrev saved : Result StoreError (Unit {0}) × Store bolt json → Option (Store bolt json)
  saved (ok u, s') = some s'
  saved (err e, s') = none

  saved-eq-some :
      (out : Result StoreError (Unit {0}) × Store bolt json) (t : Store bolt json)
      → saved out ≡ some t
      → out ≡ (ok tt, t)
  saved-eq-some (ok u, s') t h = ap (λ (z : Store bolt json). (ok tt, z)) (some_injective h)
  saved-eq-some (err e, s') t h = cc

  pub has-save_lem :
      (s t : Store bolt json) (n m : Bytes)
      → saved (save_nonce bolt json n s) ≡ some t
      → some (has_nonce bolt json t m)
        ≡ (if eqb n m then some true else some (has_nonce bolt json s m))
  has-save_lem s t n m h =
      ap some ((has_nonce-save_nonce n s t (saved-eq-some (save_nonce bolt json n s) t h)).0 m)
      ∙ some-if (eqb n m) (has_nonce bolt json s m)

  -- The peer store satisfies `NonceStore`: `HasNonce` never fails, and `SaveNonce` may.
  abbrev pub peer_nonces : NonceStore
  peer_nonces = record {
    Store = Store bolt json;
    has_nonce = λ s n. some (has_nonce bolt json s n);
    save_nonce = λ s n. saved (save_nonce bolt json n s);
    has-save = has-save_lem;
  }
