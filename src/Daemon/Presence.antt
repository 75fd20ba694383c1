-- ===== src/Daemon/Presence.antt =====
-- internal/daemon/daemon.go: the loop that keeps the relay connection up.
mod Tests
use kin.Base.{
  ℕ, zero, suc, ◌+◌, ◌*◌, ◌^◌, ◌≡◌, refl, ap, ◌∙◌, ◌≤◌, min, Bool, true, false, Option, none, some,
  List, [], ◌∷◌, length, Bytes, if◌then◌else◌, Bool-cases, inl, inr, arith,
}
use kin.Connmgr.{Network}
use kin.Connmgr.Serve.{ServeError, Surroundings, serve_punch}

-- How the loop stands: ended since the context was cancelled, in a `ServePunch` that goes on, or
-- about to call it again, with the backoff that it has then.
pub data Standing : Type 0 where
  ended serving : Standing
  retrying : ℕ → Standing

module _ (net : Network) (around : Surroundings net) where
  open net use {World}
  open around use {is_cancelled, sleep}

  -- Every wait that has begun, in seconds, and how the loop stands.
  abbrev pub Course : Type 0
  Course = List ℕ × Standing × World

  abbrev pub waited : ℕ → Course → Course
  waited s (waits, st, w) = (s ∷ waits, st, w)

  abbrev pub slept : (World → Course) → Bool × World → Course
  slept next (true, w) = ([], ended, w)
  slept next (false, w) = next w

  abbrev pub dropped : ℕ → (World → Course) → Option ServeError × World → Course
  dropped backoff next (none, w) = ([], serving, w)
  dropped backoff next (some e, w) =
      if is_cancelled w
      then ([], ended, w)
      else waited backoff (slept next (sleep (backoff * 1000) w))

  -- The loop of `relayLoop` for so many turns; each call of `ServePunch` has `reads` turns of its own.
  pub relay_turns : ℕ → ℕ → Bytes → ℕ → World → Course
  relay_turns zero reads relay backoff w = ([], retrying backoff, w)
  relay_turns (suc n) reads relay backoff w =
      let next = relay_turns n reads relay (min (backoff * 2) 30) in
      dropped backoff next (serve_punch net around reads relay w)

  -- `relayLoop`
  pub relay_loop : ℕ → ℕ → Bytes → World → Course
  unfolding relay_turns
  relay_loop n reads relay w = relay_turns n reads relay 1 w

  -- The wait behind the loss of a number of connections: twice the one before it, up to 30 seconds.
  abbrev pub delay : ℕ → ℕ
  delay i = min (2 ^ i) 30

  abbrev pub delays : ℕ → ℕ → List ℕ
  delays i zero = []
  delays i (suc n) = delay i ∷ delays (suc i) n

  -- The waits are these, and who is about to try again has waited in every turn.
  abbrev pub Backs : ℕ → ℕ → Course → Type 0
  Backs i n (waits, ended, w) = (waits ≡ delays i (length waits)) × (length waits ≤ n)
  Backs i n (waits, serving, w) = (waits ≡ delays i (length waits)) × (length waits ≤ n)
  Backs i n (waits, retrying backoff, w) = (waits ≡ delays i n) × (backoff ≡ delay (n + i))

  twice : (i : ℕ) → min (delay i * 2) 30 ≡ delay (suc i)
  twice i = omega arith

  waited-Backs : (i n : ℕ) (c : Course) → Backs (suc i) n c → Backs i (suc n) (waited (delay i) c)
  waited-Backs i n (waits, ended, w) (e, l) = (ap (λ t. delay i ∷ t) e, omega arith)
  waited-Backs i n (waits, serving, w) (e, l) = (ap (λ t. delay i ∷ t) e, omega arith)
  waited-Backs i n (waits, retrying backoff, w) (e, l) =
      (ap (λ t. delay i ∷ t) e, l ∙ ap delay (omega arith))

  slept-Backs :
      (i n : ℕ) (next : World → Course) (r : Bool × World)
      → ((w : World) → Backs i n (next w))
      → Backs i n (slept next r)
  slept-Backs i n next (true, w) h = (refl, omega arith)
  slept-Backs i n next (false, w) h = h w

  dropped-Backs :
      (i n : ℕ) (next : World → Course) (r : Option ServeError × World)
      → ((w : World) → Backs (suc i) n (next w))
      → Backs i (suc n) (dropped (delay i) next r)
  dropped-Backs i n next (none, w) h = (refl, omega arith)
  dropped-Backs i n next (some e, w) h = elim (Bool-cases (is_cancelled w)) [
    | inl c ↦ rw c (refl, omega arith)
    | inr c ↦ rw c (waited-Backs i n _ (slept-Backs (suc i) n next _ h))
  ]

  relay_turns-Backs :
      (n i reads : ℕ) (relay : Bytes) (w : World)
      → Backs i n (relay_turns n reads relay (delay i) w)
  unfolding relay_turns
  relay_turns-Backs zero i reads relay w = (refl, ap delay (omega arith))
  relay_turns-Backs (suc n) i reads relay w =
      dropped-Backs i n _ _ (λ w'. rw (twice i) (relay_turns-Backs n (suc i) reads relay w'))

  -- In every number of turns: the loop's waits are 1, 2, 4, 8 and 16 seconds and then 30 each, as
  -- many of these as there are; a loop that neither has ended nor is in a ServePunch that goes on has
  -- waited in every turn, and is about to use the next one of these as its wait.
  pub relay_loop-Backs :
      (n reads : ℕ) (relay : Bytes) (w : World) → Backs 0 n (relay_loop n reads relay w)
  unfolding relay_loop
  relay_loop-Backs n reads relay w = relay_turns-Backs n 0 reads relay w
