-- ===== src/Relay/Client/Sound.antt =====
-- No channel is closed twice or sent to after it was closed.
use mathlib.Core.Path.{subst}
use kin.Base.{
  ℕ, suc, ◌<◌, ◌≡◌, refl, sym, ◌∙◌, inl, inr, true, false, Option, none, some, List, [], ◌∷◌, ltb,
  ◌==◌, arith, All, All-weaken, length, Bytes, eqb, Bool-cases, some_injective,
}
use kin.Relay.Client.{
  Rendezvous, Chan, Client, set_chan, delete, lookup, await, give_up, offer, offer_incoming, route,
  dispatch_rendezvous, close_chans, close_locked, Event, awaits, gives_up, comes, lost, refused,
  closes, takes, handle, then_run, run,
}

-- No two waiters have the same channel.
abbrev pub Distinct : List (Bytes × ℕ) → Type 0
Distinct [] = Unit
Distinct (p ∷ ps) = All (λ q. (q.1 == p.1) ≡ false) ps × Distinct ps

-- The channels of the waiters are open, were made before, and are different from one another; the
-- channel `incoming` is closed when the client is.
pub record IsSound (c : Client) : Type 0 where
  pub unclosed : All (λ p. (c.chans p.1).closed ≡ false) c.pending
  pub made : All (λ p. p.1 < c.next) c.pending
  pub apart : Distinct c.pending
  pub together : c.incoming_closed ≡ c.closed

pub All-delete :
    (P : Bytes × ℕ → Type 0) (id : Bytes) (ps : List (Bytes × ℕ)) → All P ps → All P (delete id ps)
unfolding delete
All-delete P id [] h = tt
All-delete P id ((k, n) ∷ ps) h = elim (Bool-cases (eqb k id)) [
  | inl t ↦ rw t (All-delete P id ps h.1)
  | inr f ↦ rw f (h.0, All-delete P id ps h.1)
]

Distinct-delete : (id : Bytes) (ps : List (Bytes × ℕ)) → Distinct ps → Distinct (delete id ps)
unfolding delete
Distinct-delete id [] h = tt
Distinct-delete id ((k, n) ∷ ps) h = elim (Bool-cases (eqb k id)) [
  | inl t ↦ rw t (Distinct-delete id ps h.1)
  | inr f ↦ rw f (All-delete (λ q. (q.1 == n) ≡ false) id ps h.0, Distinct-delete id ps h.1)
]

lookup-All :
    (P : ℕ → Type 0) (id : Bytes) (ps : List (Bytes × ℕ)) (n : ℕ)
    → All (λ p. P p.1) ps
    → lookup id ps ≡ some n
    → P n
unfolding lookup
lookup-All P id [] n h e = cc
lookup-All P id ((k, m) ∷ ps) n h e = elim (Bool-cases (eqb k id)) [
  | inl t ↦ subst P (some_injective (rw t at e)) h.0
  | inr f ↦ lookup-All P id ps n h.1 (rw f at e)
]

-- Setting a channel that was not yet made, or that is open and stays so, closes none.
still_open :
    (n : ℕ) (ch : Chan) (chans : ℕ → Chan) (ps : List (Bytes × ℕ))
    → ch.closed ≡ false
    → All (λ p. (chans p.1).closed ≡ false) ps
    → All (λ p. (set_chan n ch chans p.1).closed ≡ false) ps
still_open n ch chans ps o h = All-weaken _ _ ps (λ p q. ground (arith, q)) h

-- The waiters that were there before have other channels than the one that is made next.
older : (n : ℕ) (ps : List (Bytes × ℕ)) → All (λ p. p.1 < n) ps → All (λ q. (q.1 == n) ≡ false) ps
older n ps h = All-weaken _ _ ps (λ p q. ground arith) h

await-IsSound : (id : Bytes) (c : Client) → IsSound c → IsSound (await id c).1
unfolding await
await-IsSound id c s = elim (Bool-cases c.closed) [
  | inl t ↦ simp t s
  | inr f ↦
      let others = delete id c.pending in
      let made = All-delete (λ p. p.1 < c.next) id c.pending s.made in
      let unclosed = All-delete (λ p. (c.chans p.1).closed ≡ false) id c.pending s.unclosed in
      simp f (record {
        unclosed = (
          ground arith,
          still_open c.next (record { value = none; closed = false }) c.chans others refl unclosed,
        );
        made = (
          omega arith,
          All-weaken (λ p. p.1 < c.next) (λ p. p.1 < suc c.next) others (λ p q. omega arith) made,
        );
        apart = (older c.next others made, Distinct-delete id c.pending s.apart);
        together = s.together ∙ f;
      })
]

give_up-IsSound : (id : Bytes) (c : Client) → IsSound c → IsSound (give_up id c)
unfolding give_up
give_up-IsSound id c s = record {
  unclosed = All-delete (λ p. (c.chans p.1).closed ≡ false) id c.pending s.unclosed;
  made = All-delete (λ p. p.1 < c.next) id c.pending s.made;
  apart = Distinct-delete id c.pending s.apart;
  together = s.together;
}

-- A client that has not panicked, and is sound.
abbrev pub Sound : Option Client → Type 0
Sound none = ⊥
Sound (some c) = IsSound c

filled :
    (n : ℕ) (rv : Rendezvous) (c : Client)
    → IsSound c
    → (v : Option Rendezvous)
    → Sound (elim v as (λ x. Option Client) [
      | none ↦
          some
            (record c { chans = set_chan n (record { value = some rv; closed = false }) c.chans })
      | some old ↦ some c
    ])
filled n rv c s none = record {
  unclosed =
      still_open n (record { value = some rv; closed = false }) c.chans c.pending refl s.unclosed;
  made = s.made;
  apart = s.apart;
  together = s.together;
}
filled n rv c s (some old) = s

offer-Sound :
    (n : ℕ) (rv : Rendezvous) (c : Client)
    → IsSound c
    → (c.chans n).closed ≡ false
    → Sound (offer n rv c)
unfolding offer
offer-Sound n rv c s o = simp o (filled n rv c s (c.chans n).value)

offer_incoming-Sound :
    (rv : Rendezvous) (c : Client) → IsSound c → c.closed ≡ false → Sound (offer_incoming rv c)
unfolding offer_incoming
offer_incoming-Sound rv c s f =
    let open_still : c.incoming_closed ≡ false = s.together ∙ f in
    elim (Bool-cases (ltb (length c.incoming) 16)) [
      | inl t ↦
          simp (open_still, t)
            (record { unclosed = s.unclosed; made = s.made; apart = s.apart; together = sym f })
      | inr g ↦ simp (open_still, g) s
    ]

route-Sound :
    (o : Option ℕ) (rv : Rendezvous) (c : Client)
    → IsSound c
    → ((n : ℕ) → o ≡ some n → (c.chans n).closed ≡ false)
    → Sound (route o rv c)
route-Sound (some n) rv c s h = offer-Sound n rv c s (h n refl)
route-Sound none rv c s h = elim (Bool-cases c.closed) [
  | inl t ↦ simp t s
  | inr f ↦ simp f (offer_incoming-Sound rv c s f)
]

pub dispatch_rendezvous-Sound :
    (rv : Rendezvous) (c : Client) → IsSound c → Sound (dispatch_rendezvous rv c)
unfolding dispatch_rendezvous
dispatch_rendezvous-Sound rv c s = elim (Bool-cases (length rv.peer_node_id == 32)) [
  | inl t ↦ rw t (
      route-Sound (lookup rv.peer_node_id c.pending) rv c s (λ n e.
        lookup-All (λ m. (c.chans m).closed ≡ false) rv.peer_node_id c.pending n s.unclosed e))
  | inr f ↦ rw f s
]

All-both :
    (P Q R : Bytes × ℕ → Type 0) (ps : List (Bytes × ℕ))
    → ((p : Bytes × ℕ) → P p → Q p → R p)
    → All P ps
    → All Q ps
    → All R ps
All-both P Q R [] f h k = tt
All-both P Q R (p ∷ ps) f h k = (f p h.0 k.0, All-both P Q R ps f h.1 k.1)

-- Every waiter's channel can be closed, and is closed then; no other channel is touched.
pub close_chans_lem :
    (ps : List (Bytes × ℕ)) (chans : ℕ → Chan)
    → All (λ p. (chans p.1).closed ≡ false) ps
    → Distinct ps
    → (chans' : ℕ → Chan) × (close_chans ps chans ≡ some chans')
      × All (λ p. (chans' p.1).closed ≡ true) ps
      × ((n : ℕ) → (chans n).closed ≡ true → (chans' n).closed ≡ true)
unfolding close_chans
close_chans_lem [] chans o d = (chans, refl, tt, λ n h. h)
close_chans_lem ((k, n) ∷ ps) chans o d =
    let shut : Chan = record { value = (chans n).value; closed = true } in
    let left =
      All-both (λ p. (chans p.1).closed ≡ false) (λ p. (p.1 == n) ≡ false)
        (λ p. (set_chan n shut chans p.1).closed ≡ false) ps (λ p h ne. rw ne h) o.1 d.0 in
    let (chans', e, all, keeps) = close_chans_lem ps (set_chan n shut chans) left d.1 in
    (chans', rw o.0 e, (keeps n (ground arith), all), λ m h. keeps m (ground (arith, h)))

pub close_locked-Sound : (c : Client) → IsSound c → Sound (close_locked c)
unfolding close_locked
close_locked-Sound c s = elim (Bool-cases c.closed) [
  | inl t ↦ simp t s
  | inr f ↦
      let (chans', e, all, keeps) = close_chans_lem c.pending c.chans s.unclosed s.apart in
      simp (f, e, s.together ∙ f) (record { unclosed = tt; made = tt; apart = tt; together = refl })
]

handle-Sound : (e : Event) (c : Client) → IsSound c → Sound (handle e c)
unfolding handle
handle-Sound (awaits id) c s = await-IsSound id c s
handle-Sound (gives_up id) c s = give_up-IsSound id c s
handle-Sound (comes rv) c s = dispatch_rendezvous-Sound rv c s
handle-Sound lost c s = close_locked-Sound c s
handle-Sound refused c s = close_locked-Sound c s
handle-Sound closes c s = close_locked-Sound c s
handle-Sound takes c s = record {
  unclosed = s.unclosed;
  made = s.made;
  apart = s.apart;
  together = s.together;
}

then_run-Sound :
    (es : List Event) (o : Option Client)
    → Sound o
    → ((c : Client) → IsSound c → Sound (run es c))
    → Sound (then_run (run es) o)
then_run-Sound es none h k = h
then_run-Sound es (some c) h k = k c h

-- In every order in which waiters come and go, rendezvous and errors arrive, the connection ends,
-- the client is closed and what came in is taken, no channel is closed twice or sent to when it is
-- closed: a sound client does not panic, and is sound afterwards.
pub run-Sound : (es : List Event) (c : Client) → IsSound c → Sound (run es c)
unfolding run
run-Sound [] c s = s
run-Sound (e ∷ es) c s =
    then_run-Sound es (handle e c) (handle-Sound e c s) (λ d t. run-Sound es d t)
