-- ===== src/Peerstore/Expected.antt =====
-- What `PutPeer` has stored when it has succeeded.
use mathlib.Core.Path.{subst}
use kin.Base.{
  ◌≡◌, ◌≢◌, refl, sym, ap, ◌∙◌, inl, inr, Bool, false, ◌||◌, Option, none, some, List, [], ◌∷◌,
  ◌++◌, if◌then◌else◌, arith, Bytes, eqb, eqb_iff, Result, ok, err, Bool-cases, ok_injective,
}
use kin.Base.Times.{Time}
use kin.Bolt.{Bolt, Json}
use kin.Peerstore.{
  TrustState, unset, tofu, suspect, blocked, other, Peer, StoreError, key_changed, or_tofu, stamped,
  contains, merge_endpoints, Store, put_peer, get_peer,
}
use kin.Peerstore.Endpoints.{fresh, merge_endpoints_lem}
use kin.Peerstore.Pinning.{expected, put_peer-expected, Wrote}

-- An item of a list, and the items of a list that are not in another one.
abbrev pub is_in : Bytes → List Bytes → Bool
is_in ep [] = false
is_in ep (e ∷ es) = eqb e ep || is_in ep es

abbrev pub not_among : List Bytes → List Bytes → List Bytes
not_among known [] = []
not_among known (ep ∷ eps) =
    if is_in ep known then not_among known eps else ep ∷ not_among known eps

contains-is_in : (es : List Bytes) (ep : Bytes) → contains es ep ≡ is_in ep es
unfolding contains
contains-is_in [] ep = refl
contains-is_in (e ∷ es) ep = ground (arith, contains-is_in es ep)

fresh-not_among : (known eps : List Bytes) → fresh known eps ≡ not_among known eps
unfolding fresh
fresh-not_among known [] = refl
fresh-not_among known (ep ∷ eps) =
    ground (arith, contains-is_in known ep, fresh-not_among known eps)

-- The trust in a peer, `given` by the caller.
pub data IsTrust (given : TrustState) (stored : TrustState) : Type 0 where
  first_use : given ≡ unset → stored ≡ tofu → IsTrust given stored
  as_given : given ≢ unset → stored ≡ given → IsTrust given stored

-- The endpoints of the peer, and its key, by what was known of it.
abbrev pub IsMerged : Option Peer → Peer → Peer → Type 0
IsMerged none p m = m.endpoints ≡ p.endpoints
IsMerged (some prev) p m =
    (prev.public_key ≡ p.public_key)
    × (m.endpoints ≡ prev.endpoints ++ not_among prev.endpoints p.endpoints)

-- The peer `m` that stands for `p` at the time `now`, where `known` was known before.
pub record IsExpected (known : Option Peer) (p : Peer) (now : Time) (m : Peer) : Type 0 where
  pub node_id : m.node_id ≡ p.node_id
  pub public_key : m.public_key ≡ p.public_key
  pub last_seen : m.last_seen ≡ now
  pub trust : IsTrust p.trust_state m.trust_state
  pub endpoints : IsMerged known p m

or_tofu-IsTrust :
    (p m : Peer) (t : TrustState) → m.trust_state ≡ or_tofu t → IsTrust t m.trust_state
or_tofu-IsTrust p m unset e = first_use refl e
or_tofu-IsTrust p m tofu e = as_given (λ h. cc) e
or_tofu-IsTrust p m suspect e = as_given (λ h. cc) e
or_tofu-IsTrust p m blocked e = as_given (λ h. cc) e
or_tofu-IsTrust p m (other text) e = as_given (λ h. cc) e

merged_stamp :
    (known : Option Peer) (p q : Peer) (now : Time)
    → IsMerged known p q
    → IsMerged known p (stamped now q)
merged_stamp none p q now h = h
merged_stamp (some prev) p q now h = h

refused : (e : StoreError) (m : Peer) (r : Result StoreError Peer) → r ≡ err e → r ≡ ok m → ⊥
refused e m r f g = cc

stamped-IsExpected :
    (p q m : Peer) (now : Time) (known : Option Peer)
    → q.node_id ≡ p.node_id
    → q.public_key ≡ p.public_key
    → q.trust_state ≡ p.trust_state
    → IsMerged known p q
    → m ≡ stamped now q
    → IsExpected known p now m
stamped-IsExpected p q m now known a b c d e = record {
  node_id = rw e a;
  public_key = rw e b;
  last_seen = rw e refl;
  trust = or_tofu-IsTrust p m p.trust_state (ap (λ (x : Peer). x.trust_state) e ∙ rw c refl);
  endpoints = subst (IsMerged known p) (sym e) (merged_stamp known p q now d);
}

expected-IsExpected :
    (known : Option Peer) (p m : Peer) (now : Time)
    → expected known p now ≡ ok m
    → IsExpected known p now m
unfolding expected
expected-IsExpected none p m now e =
    stamped-IsExpected p p m now none refl refl refl refl
      (sym (ok_injective {E = StoreError} refl e))
expected-IsExpected (some prev) p m now e = elim (Bool-cases (eqb prev.public_key p.public_key)) [
  | inl t ↦
      let q : Peer = record p { endpoints = merge_endpoints prev.endpoints p.endpoints } in
      stamped-IsExpected p q m now (some prev) refl refl refl
        (
          (eqb_iff prev.public_key p.public_key).0 t,
          (merge_endpoints_lem prev.endpoints p.endpoints).0
              ∙ ap (λ l. prev.endpoints ++ l) (fresh-not_among prev.endpoints p.endpoints),
        )
        (sym (ok_injective {E = StoreError} refl (rw t at e)))
  | inr f ↦ absurd (refused key_changed m _ refl (rw f at e))
]

module _ (bolt : Bolt) (json : Json Peer) where
  -- A PutPeer that succeeds has read what was known of the peer. Under its id stands behind that, as
  -- JSON keeps it, a peer with the given id and key, seen now, its trust being tofu where none is
  -- given and the given one else. Its endpoints are the given ones if nothing was known; else the
  -- known peer has the same key, and the endpoints are the known ones and behind them the given ones
  -- that are not among these. Every other peer and the nonces are as before.
  pub put_peer-IsExpected :
      (p : Peer) (now : Time) (s s' : Store bolt json)
      → put_peer bolt json p now s ≡ (ok tt, s')
      → (known : Option Peer) × (m : Peer) × (get_peer bolt json s p.node_id ≡ ok known)
        × IsExpected known p now m
        × Wrote bolt json p.node_id m s s'
  put_peer-IsExpected p now s s' h =
      let (known, m, e, x, w) = put_peer-expected bolt json p now s s' h in
      (known, m, e, expected-IsExpected known p m now x, w)
