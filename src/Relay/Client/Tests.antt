-- ===== src/Relay/Client/Tests.antt =====
-- A client with waiters, and the theorems at concrete inputs.
use kin.Base.{
  ℕ, zero, suc, ◌<◌, ◌≡◌, refl, Bool, true, false, Option, none, some, List, [], ◌∷◌, All,
  replicate, length, Bytes, arith, Result, ok,
}
use kin.Relay.Client.{
  Rendezvous, ClientError, received, Client, await, dispatch_rendezvous, close_locked, awaits,
  gives_up, comes, lost, closes, refused, takes, run, connected,
}
use kin.Relay.Client.Sound.{IsSound, Sound, run-Sound}
use kin.Relay.Client.Waiters.{close_locked-wakes, await-dispatch_rendezvous}

abbrev id : Bytes
id = replicate 32 1

abbrev told : Rendezvous
told = record { peer_node_id = id; peer_public_key = id; peer_external_addr = [] }

connected-IsSound : IsSound connected
unfolding connected
connected-IsSound = record { unclosed = tt; made = tt; apart = tt; together = refl }

run-Sound_example : Sound (
    run
      (awaits id ∷ comes told ∷ gives_up id ∷ comes told ∷ takes ∷ refused ∷ lost ∷ closes ∷ [])
      connected)
run-Sound_example =
    run-Sound
      (awaits id ∷ comes told ∷ gives_up id ∷ comes told ∷ takes ∷ refused ∷ lost ∷ closes ∷ [])
      connected connected-IsSound

-- A rendezvous that nobody waits for is kept for the reader of `Incoming`.
incoming_run : (run (comes told ∷ []) connected) ≡ some (record connected { incoming = told ∷ [] })
unfolding run connected
incoming_run = refl

abbrev waiting : Client
waiting = record {
  pending = (id, 0) ∷ [];
  next = 1;
  chans = λ n. record { value = none; closed = false };
  incoming = [];
  incoming_closed = false;
  closed = false;
}

close_locked-wakes_example :
    (c' : Client) × (close_locked waiting ≡ some c')
    × All
        (λ p. (r : Result ClientError Rendezvous) × (received (c'.chans p.1) ≡ some r))
        waiting.pending
    × (c'.pending ≡ [])
    × ((i : Bytes) → await i c' ≡ (none, c'))
close_locked-wakes_example =
    close_locked-wakes waiting
      (record {
        unclosed = (refl, tt);
        made = (omega arith, tt);
        apart = (tt, tt);
        together = refl;
      })
      refl

await-dispatch_rendezvous_example :
    (c' : Client) × (dispatch_rendezvous told (await id waiting).1 ≡ some c')
    × ((await id waiting).0 ≡ some 1)
    × (received (c'.chans 1) ≡ some (ok told))
await-dispatch_rendezvous_example = await-dispatch_rendezvous told waiting refl refl

-- The second of two waiters for one node takes the place of the first, whose channel stays open and
-- empty when the client is closed.
replaced : Option Client → Bool
replaced none = false
replaced (some c) = (c.chans 0).closed

replaced-run : replaced (run (awaits id ∷ awaits id ∷ lost ∷ []) connected) ≡ false
unfolding replaced run connected kin.Base.eqb
replaced-run = refl
