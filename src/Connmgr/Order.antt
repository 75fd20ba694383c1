-- ===== src/Connmgr/Order.antt =====
-- `Dial` makes its attempts one after the other, in a fixed order.
use kin.Base.{
  ◌≡◌, refl, ap, ◌∙◌, inl, inr, List, [], ◌∷◌, ◌++◌, append-nil, append_assoc, map, drop,
  if◌then◌else◌, Bytes, Result, ok, err, Bool-cases,
}
use kin.Connmgr.{
  DialError, no_route, Network, is_relay, split_from, split_endpoints, punch_via_relay, try_from,
  try_each, try_direct, or_next, dial,
}

-- An attempt to make: at an address, or by a relay.
pub data Route : Type 0 where
  at by : Bytes → Route

pub directs : List Bytes → List Bytes
directs [] = []
directs (ep ∷ eps) = if is_relay ep then directs eps else ep ∷ directs eps

pub relays : List Bytes → List Bytes
relays [] = []
relays (ep ∷ eps) = if is_relay ep then drop 8 ep ∷ relays eps else relays eps

-- The attempts for a list of endpoints: the direct ones, then the relays, each in the list's order.
pub plan : List Bytes → List Route
unfolding directs relays
plan eps = map at (directs eps) ++ map by (relays eps)

split_from_lem :
    (ds rs eps : List Bytes) → split_from ds rs eps ≡ (ds ++ directs eps, rs ++ relays eps)
unfolding split_from directs relays
split_from_lem ds rs [] = rw (append-nil ds, append-nil rs) refl
split_from_lem ds rs (ep ∷ eps) = elim (Bool-cases (is_relay ep)) [
  | inl t ↦
      rw
        (
          t,
          split_from_lem ds (rs ++ drop 8 ep ∷ []) eps,
          append_assoc rs (drop 8 ep ∷ []) (relays eps),
        )
        refl
  | inr f ↦
      rw (f, split_from_lem (ds ++ ep ∷ []) rs eps, append_assoc ds (ep ∷ []) (directs eps)) refl
]

module _ (net : Network) where
  open net use {World, Conn, direct}

  abbrev pub attempt : Bytes → Route → World → Result DialError Conn × World
  attempt peer (at addr) w = try_direct net peer addr w
  attempt peer (by relay) w = punch_via_relay net peer relay w

  -- The first attempt that succeeds, each made in the world that the one before has left.
  unfoldable pub first_success : Bytes → List Route → World → Result DialError Conn × World
  first_success peer [] w = (err no_route, w)
  first_success peer (r ∷ rs) w = or_next net (attempt peer r w) (λ e w'. first_success peer rs w')

  or_next-or_next :
      (out : Result DialError Conn × World)
      (k l : DialError → World → Result DialError Conn × World)
      → or_next net (or_next net out k) l ≡ or_next net out (λ e w. or_next net (k e w) l)
  or_next-or_next (ok conn, w) k l = refl
  or_next-or_next (err e, w) k l = refl

  or_next_cong :
      (out : Result DialError Conn × World)
      (k l : DialError → World → Result DialError Conn × World)
      → ((e : DialError) (w : World) → k e w ≡ l e w)
      → or_next net out k ≡ or_next net out l
  or_next_cong (ok conn, w) k l same = refl
  or_next_cong (err e, w) k l same = same e w

  -- `tryEach`, and what comes behind it, against the first success of a list that begins so.
  module _ (peer : Bytes) (f : Bytes → World → Result DialError Conn × World)
      (route : Bytes → Route) (rest : List Route)
      (f-attempt : (addr : Bytes) (w : World) → f addr w ≡ attempt peer (route addr) w) where
    try_from-first_success :
        (last : DialError) (addrs : List Bytes) (w : World)
        → or_next net (try_from net f last addrs w) (λ e w'. first_success peer rest w')
          ≡ first_success peer (map route addrs ++ rest) w
    unfolding try_from first_success
    try_from-first_success last [] w = refl
    try_from-first_success last (addr ∷ addrs) w =
        or_next-or_next (f addr w) (λ e w'. try_from net f e addrs w')
          (λ e w'. first_success peer rest w')
        ∙ ap
            (λ out. or_next net out (λ e w'.
              or_next net (try_from net f e addrs w') (λ e' w''. first_success peer rest w'')))
            (f-attempt addr w)
        ∙ or_next_cong (attempt peer (route addr) w)
            (λ e w'.
              or_next net (try_from net f e addrs w') (λ e' w''. first_success peer rest w''))
            (λ e w'. first_success peer (map route addrs ++ rest) w')
            (λ e w'. try_from-first_success e addrs w')

  -- `Dial` is the first attempt of its plan that succeeds: the endpoints that name no relay are
  -- tried first, in order, then hole punching by each relay, in order, and no attempt is made behind
  -- one that succeeds. Where none does, the error is that there is no route.
  pub dial-first_success :
      (peer : Bytes) (eps : List Bytes) (w : World)
      → dial net peer eps w ≡ first_success peer (plan eps) w
  unfolding dial split_endpoints try_each plan first_success
  dial-first_success peer eps w = rw (split_from_lem [] [] eps) (
      or_next_cong (try_from net (try_direct net peer) no_route (directs eps) w)
        (λ e w'.
          or_next net (try_from net (punch_via_relay net peer) no_route (relays eps) w')
            (λ e' w''. (err no_route, w'')))
        (λ e w'. first_success peer (map by (relays eps)) w')
        (λ e w'.
          try_from-first_success peer (punch_via_relay net peer) by [] (λ addr w''. refl) no_route
            (relays eps) w'
          ∙ ap (λ rs. first_success peer rs w') (append-nil (map by (relays eps))))
      ∙ try_from-first_success peer (try_direct net peer) at (map by (relays eps)) (λ addr w'. refl)
          no_route (directs eps) w)
