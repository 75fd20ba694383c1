-- ===== src/Ipc/Client/Subscribe/Heard.antt =====
-- What the program hears of the events that were written on its connection.
use kin.Base.{
  ℕ, zero, suc, ◌+◌, ◌-◌, ◌≤◌, ◌≡◌, refl, sym, ap, ◌∙◌, Bool, true, false, List, [], ◌∷◌, ◌++◌, ltb,
  leb, if◌then◌else◌, length, length-append, length-drop, drop, take, take-append-drop,
  append_assoc, append-nil, map, All, arith, Bytes, ok, err, Bool-cases, inl, inr,
}
use kin.Base.Streams.{Ending, Reader}
use kin.Bolt.{Json}
use kin.Ipc.{Event}
use kin.Ipc.Framing.{Fits, frame, length-frame, read_json, read_json-frame}
use kin.Ipc.Client.Subscribe.{
  zero_event, Feed, new_feed, offer, take_events, heard, read_events, listen,
}

-- Part of a list, in its order.
pub data IsPart : List Event → List Event → Type 0 where
  nothing : IsPart [] []
  skip : (x : Event) {xs ys : List Event} → IsPart xs ys → IsPart xs (x ∷ ys)
  keep : (x : Event) {xs ys : List Event} → IsPart xs ys → IsPart (x ∷ xs) (x ∷ ys)

-- What was heard so far.
abbrev pub so_far : Feed → List Event
so_far f = f.taken ++ f.buffer

so_far-take_events : (n : ℕ) (f : Feed) → so_far (take_events n f) ≡ so_far f
so_far-take_events n f =
    append_assoc f.taken (take n f.buffer) (drop n f.buffer)
    ∙ ap (λ xs. f.taken ++ xs) (take-append-drop n f.buffer)

module _ (events : Json Event) where
  -- Events with the bodies of their messages.
  abbrev pub AllFit : List (Event × Bytes) → Type 0
  AllFit = All (λ p. Fits events p.0 p.1)

  abbrev pub frames : List (Event × Bytes) → Bytes
  frames [] = []
  frames ((ev, body) ∷ ps) = frame body ++ frames ps

  abbrev pub kept : List (Event × Bytes) → List Event
  kept [] = []
  kept ((ev, body) ∷ ps) = events.repair ev ∷ kept ps

  -- All were heard, if the channel has had room whatever was taken off it, and else a part of them.
  abbrev pub Heard : Bool → List Event → List (Event × Bytes) → Feed → Type 0
  Heard true before ps f = so_far f ≡ before ++ kept ps
  Heard false before ps f = (xs : List Event) × IsPart xs (kept ps) × (so_far f ≡ before ++ xs)

  -- The feed behind the first event, and the turns on the others.
  read_events-next :
      (ev : Event) (body rest : Bytes) (fuel : ℕ) (takes : ℕ → ℕ) (e : Ending) (f : Feed)
      → Fits events ev body
      → read_events events (suc fuel) takes (record { pending = frame body ++ rest; ending = e }) f
        ≡ read_events events fuel takes
            (record { pending = rest; ending = e })
            (offer (events.repair ev) (take_events (takes fuel) f))
  unfolding read_events
  read_events-next ev body rest fuel takes e f h =
      rw (read_json-frame events ev zero_event body rest e h) refl

  read_events-end :
      (fuel : ℕ) (takes : ℕ → ℕ) (e : Ending) (f : Feed)
      → (read_events events (suc fuel) takes (record { pending = []; ending = e }) f).0
        ≡ record (take_events (takes fuel) f) { closed = true }
  unfolding read_events read_json kin.Base.Streams.read_full
  read_events-end fuel takes e f = refl

  offered :
      (ev : Event) (f : Feed)
      → length f.buffer + 1 ≤ 64
      → (so_far (offer ev f) ≡ so_far f ++ ev ∷ [])
        × (length (offer ev f).buffer ≡ length f.buffer + 1)
  unfolding offer
  offered ev f h =
      let room : ltb (length f.buffer) 64 ≡ true = ground arith in
      rw room (
        sym (append_assoc f.taken f.buffer (ev ∷ [])),
        omega (arith, length-append f.buffer (ev ∷ [])),
      )

  dropped : (ev : Event) (f : Feed) → ltb (length f.buffer) 64 ≡ false → offer ev f ≡ f
  unfolding offer
  dropped ev f h = rw h refl

  ends :
      (ps : List (Event × Bytes)) (fuel : ℕ) (takes : ℕ → ℕ) (e : Ending) (f : Feed)
      → AllFit ps
      → length ps ≤ fuel
      → (read_events events
          (suc fuel)
          takes
          (record { pending = frames ps; ending = e })
          f).0.closed
        ≡ true
  ends [] fuel takes e f h k = ap (λ (g : Feed). g.closed) (read_events-end fuel takes e f)
  ends (p ∷ ps) zero takes e f h k = absurd (omega arith)
  ends ((ev, body) ∷ ps) (suc fuel) takes e f (fits, h) k =
      rw (read_events-next ev body (frames ps) (suc fuel) takes e f fits)
        (ends ps fuel takes e _ h (omega arith))

  all_heard :
      (ps : List (Event × Bytes)) (fuel : ℕ) (takes : ℕ → ℕ) (e : Ending) (f : Feed)
      → AllFit ps
      → length ps ≤ fuel
      → length f.buffer + length ps ≤ 64
      → so_far
          (read_events events (suc fuel) takes (record { pending = frames ps; ending = e }) f).0
        ≡ so_far f ++ kept ps
  all_heard [] fuel takes e f h k room =
      ap so_far (read_events-end fuel takes e f)
      ∙ so_far-take_events (takes fuel) f
      ∙ sym (append-nil (so_far f))
  all_heard (p ∷ ps) zero takes e f h k room = absurd (omega arith)
  all_heard ((ev, body) ∷ ps) (suc fuel) takes e f (fits, h) k room =
      let g = take_events (takes (suc fuel)) f in
      let less = length-drop (takes (suc fuel)) f.buffer in
      let (more, size) = offered (events.repair ev) g (omega arith) in
      rw (read_events-next ev body (frames ps) (suc fuel) takes e f fits) (
        all_heard ps fuel takes e (offer (events.repair ev) g) h (omega arith) (omega arith)
        ∙ ap (λ xs. xs ++ kept ps)
            (more
              ∙ ap (λ xs. xs ++ events.repair ev ∷ []) (so_far-take_events (takes (suc fuel)) f))
        ∙ append_assoc (so_far f) (events.repair ev ∷ []) (kept ps))

  part_heard :
      (ps : List (Event × Bytes)) (fuel : ℕ) (takes : ℕ → ℕ) (e : Ending) (f : Feed)
      → AllFit ps
      → length ps ≤ fuel
      → (xs : List Event) × IsPart xs (kept ps)
        × (so_far
              (read_events events (suc fuel) takes (record { pending = frames ps; ending = e }) f).0
            ≡ so_far f ++ xs)
  part_heard [] fuel takes e f h k = (
    [],
    nothing,
    ap so_far (read_events-end fuel takes e f)
        ∙ so_far-take_events (takes fuel) f
        ∙ sym (append-nil (so_far f)),
  )
  part_heard (p ∷ ps) zero takes e f h k = absurd (omega arith)
  part_heard ((ev, body) ∷ ps) (suc fuel) takes e f (fits, h) k =
      let g = take_events (takes (suc fuel)) f in
      let x = events.repair ev in
      let same = so_far-take_events (takes (suc fuel)) f in
      let (xs, part, heard) = part_heard ps fuel takes e (offer x g) h (omega arith) in
      elim (Bool-cases (ltb (length g.buffer) 64)) [
        | inl r ↦
            let (more, size) = offered x g (ground arith) in
            (
              x ∷ xs,
              keep x part,
              rw (read_events-next ev body (frames ps) (suc fuel) takes e f fits) (
                  heard
                  ∙ ap (λ ys. ys ++ xs) (more ∙ ap (λ ys. ys ++ x ∷ []) same)
                  ∙ append_assoc (so_far f) (x ∷ []) xs),
            )
        | inr r ↦ (
          xs,
          skip x part,
          rw (read_events-next ev body (frames ps) (suc fuel) takes e f fits)
              (heard ∙ ap (λ ys. ys ++ xs) (ap so_far (dropped x g r) ∙ same)),
        )
      ]

  length-frames : (ps : List (Event × Bytes)) → length ps ≤ length (frames ps)
  length-frames [] = omega arith
  length-frames ((ev, body) ∷ ps) =
      omega (arith, length-frames ps, length-frame body, length-append (frame body) (frames ps))

  -- The goroutine on the messages of some events.
  pub listen-Heard :
      (ps : List (Event × Bytes)) (takes : ℕ → ℕ) (e : Ending)
      → AllFit ps
      → Heard
          (leb (length ps) 64)
          []
          ps
          (listen events takes (record { pending = frames ps; ending = e }) new_feed).0
        × ((listen events takes (record { pending = frames ps; ending = e }) new_feed).0.closed
            ≡ true)
  unfolding listen
  listen-Heard ps takes e h =
      let fuel = length (frames ps) in
      (
        elim (Bool-cases (leb (length ps) 64)) [
          | inl r ↦ rw r (all_heard ps fuel takes e new_feed h (length-frames ps) (ground arith))
          | inr r ↦ rw r (part_heard ps fuel takes e new_feed h (length-frames ps))
        ],
        ends ps fuel takes e new_feed h (length-frames ps),
      )
