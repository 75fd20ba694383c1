-- ===== src/Relay/Client/Waiters.antt =====
-- Who is woken, and by what.
use kin.Base.{
  ℕ, suc, ◌≡◌, refl, ◌∙◌, Bool, true, false, Option, none, some, List, [], ◌∷◌, ◌==◌, if◌then◌else◌,
  arith, All, length, Bytes, eqb, eqb_iff, All-weaken, Result, ok, err,
}
use kin.Relay.{
  RelayMessage, relay_register, relay_registered, relay_connect, relay_rendezvous, relay_error,
  unexpected,
}
use kin.Relay.Client.{
  Rendezvous, Chan, ClientError, relay_disconnected, checked, received, then_run, read_loop, Client,
  set_chan, delete, lookup, await, offer, closed_with, close_chans, dispatch_rendezvous,
  close_locked,
}
use kin.Relay.Client.Sound.{
  IsSound, Sound, dispatch_rendezvous-Sound, close_locked-Sound, close_chans_lem,
}

answered :
    (ch : Chan) (v : Option Rendezvous)
    → ch.closed ≡ true
    → ch.value ≡ v
    → (r : Result ClientError Rendezvous) × (received ch ≡ some r)
unfolding received
answered ch none h e = (err relay_disconnected, rw (e, h) refl)
answered ch (some rv) h e = (checked rv, rw e refl)

-- When the connection of an open client ends, or a relay error comes, or it is closed: every waiter
-- that stands in the client's table returns, the table is empty, and who asks from then on is turned
-- away at once. A waiter that another one for the same node has replaced stands in the table no
-- more, and is not among them.
pub close_locked-wakes :
    (c : Client)
    → IsSound c
    → c.closed ≡ false
    → (c' : Client) × (close_locked c ≡ some c')
      × All
          (λ p. (r : Result ClientError Rendezvous) × (received (c'.chans p.1) ≡ some r))
          c.pending
      × (c'.pending ≡ [])
      × ((id : Bytes) → await id c' ≡ (none, c'))
unfolding close_locked await
close_locked-wakes c s f =
    let (chans', e, all, keeps) = close_chans_lem c.pending c.chans s.unclosed s.apart in
    (
      record c { pending = []; chans = chans'; incoming_closed = true; closed = true },
      simp (f, e, s.together ∙ f) refl,
      All-weaken (λ p. (chans' p.1).closed ≡ true) _ c.pending
          (λ p h. answered (chans' p.1) (chans' p.1).value h refl) all,
      refl,
      λ id. refl,
    )

-- A node that asks for another one and is told of it, returns with what it was told.
pub await-dispatch_rendezvous :
    (rv : Rendezvous) (c : Client)
    → c.closed ≡ false
    → length rv.peer_node_id ≡ 32
    → (c' : Client) × (dispatch_rendezvous rv (await rv.peer_node_id c).1 ≡ some c')
      × ((await rv.peer_node_id c).0 ≡ some c.next)
      × (received (c'.chans c.next) ≡ some (ok rv))
unfolding await dispatch_rendezvous lookup offer received
await-dispatch_rendezvous rv c f l =
    let id = rv.peer_node_id in
    let size : (length id == 32) ≡ true = ground arith in
    let own : eqb id id ≡ true = (eqb_iff id id).1 refl in
    let here : (c.next == c.next) ≡ true = ground arith in
    let waiting : Client = record c {
      pending = (id, c.next) ∷ delete id c.pending;
      next = suc c.next;
      chans = set_chan c.next (record { value = none; closed = false }) c.chans;
    } in
    let made : await id c ≡ (some c.next, waiting) = simp f refl in
    (
      record c {
        pending = (id, c.next) ∷ delete id c.pending;
        next = suc c.next;
        chans =
            set_chan c.next (record { value = some rv; closed = false })
              (set_chan c.next (record { value = none; closed = false }) c.chans);
      },
      rw made (rw (size, own, here) refl),
      rw made refl,
      rw (here, size) refl,
    )

-- A client that has not panicked and is closed.
abbrev Ended : Option Client → Type 0
Ended none = ⊥
Ended (some c) = (c.closed ≡ true)

Ended-if :
    (c : Client) (chans : ℕ → Chan) (b : Bool)
    → Sound (
        if b
        then none
        else some (record c { pending = []; chans = chans; incoming_closed = true; closed = true }))
    → Ended (
        if b
        then none
        else some (record c { pending = []; chans = chans; incoming_closed = true; closed = true }))
Ended-if c chans true h = h
Ended-if c chans false h = refl

closed_with-Ended :
    (c : Client) (o : Option (ℕ → Chan)) → Sound (closed_with c o) → Ended (closed_with c o)
closed_with-Ended c none h = h
closed_with-Ended c (some chans) h = Ended-if c chans c.incoming_closed h

close-Ended :
    (c : Client) (b : Bool)
    → c.closed ≡ b
    → IsSound c
    → Sound (close_locked c)
    → Ended (close_locked c)
unfolding close_locked
close-Ended c true e s h = simp e refl
close-Ended c false e s h =
    simp e (closed_with-Ended c (close_chans c.pending c.chans) (simp e at h))

close_locked-Ended : (c : Client) → IsSound c → Ended (close_locked c)
close_locked-Ended c s = close-Ended c c.closed refl s (close_locked-Sound c s)

continued :
    (ms : List RelayMessage) (o : Option Client)
    → Sound o
    → ((c : Client) → IsSound c → Ended (read_loop ms c))
    → Ended (then_run (read_loop ms) o)
continued ms none h k = h
continued ms (some c) h k = k c h

-- Whatever the relay sends until the connection ends: the read loop ends without a panic, and the
-- client is closed then.
read_loop-Ended : (ms : List RelayMessage) (c : Client) → IsSound c → Ended (read_loop ms c)
unfolding read_loop
read_loop-Ended [] c s = close_locked-Ended c s
read_loop-Ended (relay_rendezvous id key addr ∷ ms) c s =
    continued ms (dispatch_rendezvous _ c) (dispatch_rendezvous-Sound _ c s)
      (λ d t. read_loop-Ended ms d t)
read_loop-Ended (relay_error reason ∷ ms) c s =
    continued ms (close_locked c) (close_locked-Sound c s) (λ d t. read_loop-Ended ms d t)
read_loop-Ended (relay_register id key port ∷ ms) c s = read_loop-Ended ms c s
read_loop-Ended (relay_registered addr ∷ ms) c s = read_loop-Ended ms c s
read_loop-Ended (relay_connect id ∷ ms) c s = read_loop-Ended ms c s
read_loop-Ended (unexpected ∷ ms) c s = read_loop-Ended ms c s
