-- ===== src/Daemon/Sessions/Counts.antt =====
-- What the subscribers are told of a peer, how many connections it has, and the connections that are served.
use kin.Base.{
  ℕ, ◌+◌, ◌≡◌, ◌⊎◌, inl, inr, refl, ap, Bool, true, false, List, [], ◌∷◌, ◌++◌, Bytes, eqb, eqb_iff,
  arith,
}
use kin.Protocol.Handler.{Conn}
use kin.Daemon.Sessions.{Session}

-- What a frame tells the subscribers.
pub data Notice : Type 0 where
  online offline : Bytes → Notice
  updated : Notice

abbrev pub one_if : Bool → ℕ
one_if true = 1
one_if false = 0

-- How often a peer was announced online and offline, and how many connections it has.
abbrev pub onlines : Bytes → List Notice → ℕ
onlines id [] = 0
onlines id (online i ∷ ns) = one_if (eqb id i) + onlines id ns
onlines id (offline i ∷ ns) = onlines id ns
onlines id (updated ∷ ns) = onlines id ns

abbrev pub offlines : Bytes → List Notice → ℕ
offlines id [] = 0
offlines id (online i ∷ ns) = offlines id ns
offlines id (offline i ∷ ns) = one_if (eqb id i) + offlines id ns
offlines id (updated ∷ ns) = offlines id ns

abbrev pub count : Bytes → List Session → ℕ
count id [] = 0
count id (s ∷ ss) = one_if (eqb id s.conn.peer_id) + count id ss

pub onlines-append :
    (id : Bytes) (ns ms : List Notice) → onlines id (ns ++ ms) ≡ onlines id ns + onlines id ms
onlines-append id [] ms = omega arith
onlines-append id (online i ∷ ns) ms = omega (arith, onlines-append id ns ms)
onlines-append id (offline i ∷ ns) ms = onlines-append id ns ms
onlines-append id (updated ∷ ns) ms = onlines-append id ns ms

pub offlines-append :
    (id : Bytes) (ns ms : List Notice) → offlines id (ns ++ ms) ≡ offlines id ns + offlines id ms
offlines-append id [] ms = omega arith
offlines-append id (online i ∷ ns) ms = offlines-append id ns ms
offlines-append id (offline i ∷ ns) ms = omega (arith, offlines-append id ns ms)
offlines-append id (updated ∷ ns) ms = offlines-append id ns ms

pub count-append :
    (id : Bytes) (ss ts : List Session) → count id (ss ++ ts) ≡ count id ss + count id ts
count-append id [] ts = omega arith
count-append id (s ∷ ss) ts = omega (arith, count-append id ss ts)

-- A connection whose Serve has begun and not ended.
abbrev pub IsServed : Conn → List Session → Type 0
IsServed c [] = ⊥
IsServed c (s ∷ ss) = ((s.conn ≡ c) × (s.serving ≡ true)) ⊎ IsServed c ss

pub IsServed-append : (c : Conn) (ss ts : List Session) → IsServed c ss → IsServed c (ss ++ ts)
IsServed-append c [] ts h = absurd h
IsServed-append c (s ∷ ss) ts (inl h) = inl h
IsServed-append c (s ∷ ss) ts (inr h) = inr (IsServed-append c ss ts h)

-- A session whose Serve begins takes nothing from the others.
pub IsServed-begun :
    (c d : Conn) (before after : List Session)
    → IsServed d (before ++ record { conn = c; serving = false } ∷ after)
    → IsServed d (before ++ record { conn = c; serving = true } ∷ after)
IsServed-begun c d [] after (inl (e, f)) = cc
IsServed-begun c d [] after (inr h) = inr h
IsServed-begun c d (s ∷ ss) after (inl h) = inl h
IsServed-begun c d (s ∷ ss) after (inr h) = inr (IsServed-begun c d ss after h)

pub IsServed-here :
    (c : Conn) (before after : List Session)
    → IsServed c (before ++ record { conn = c; serving = true } ∷ after)
IsServed-here c [] after = inl (refl, refl)
IsServed-here c (s ∷ ss) after = inr (IsServed-here c ss after)

-- The other connections are served on when one has ended.
pub IsServed-ended :
    (c d : Conn) (before after : List Session)
    → eqb c.peer_id d.peer_id ≡ false
    → IsServed d (before ++ record { conn = c; serving = true } ∷ after)
    → IsServed d (before ++ after)
IsServed-ended c d [] after ne (inl (e, f)) =
    cc ((eqb_iff c.peer_id d.peer_id).1 (ap (λ (x : Conn). x.peer_id) e))
IsServed-ended c d [] after ne (inr h) = h
IsServed-ended c d (s ∷ ss) after ne (inl h) = inl h
IsServed-ended c d (s ∷ ss) after ne (inr h) = inr (IsServed-ended c d ss after ne h)
