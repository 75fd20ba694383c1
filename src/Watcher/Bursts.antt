-- ===== src/Watcher/Bursts.antt =====
-- A burst of events of one file.
use kin.Base.{
  ℕ, ◌+◌, ◌≤◌, ◌<◌, ◌≡◌, refl, ap, ◌∙◌, inl, inr, true, false, ◌||◌, List, [], ◌∷◌, leb,
  if◌then◌else◌, arith, Bytes, eqb_iff, Bool-cases,
}
use kin.Watcher.{
  Services, Watcher, FileEvent, debounce_delay, has_timer, reset_timer, schedule, waiting, due,
  handle_event, index_all, index_file, fire, watch,
}

-- Events of one file: each creates or writes it, comes no earlier than the one before, at `last`, and
-- before that one's timer fires.
abbrev pub IsBurst : Bytes → ℕ → List (ℕ × FileEvent) → Type 0
IsBurst path last [] = Unit
IsBurst path last ((now, ev) ∷ evs) =
    (ev.name ≡ path)
    × ((ev.create || ev.write) ≡ true)
    × (last ≤ now)
    × (now < last + debounce_delay)
    × IsBurst path now evs

-- The time of the last event.
abbrev pub end : ℕ → List (ℕ × FileEvent) → ℕ
end last [] = last
end last ((now, ev) ∷ evs) = end now evs

module _ (services : Services) where
  -- A watcher whose one timer is that of `path`.
  abbrev pub with_timer : Bytes → ℕ → Watcher services → Watcher services
  with_timer path at w = record w { timers = (path, at) ∷ [] }

  not_due :
      (now at : ℕ) (path : Bytes) (w : Watcher services)
      → now < at
      → fire services now (with_timer path at w) ≡ with_timer path at w
  unfolding fire due waiting index_all
  not_due now at path w h = let early : leb at now ≡ false = ground arith in rw early refl

  fire_when :
      (now at : ℕ) (path : Bytes) (w : Watcher services)
      → fire services now (with_timer path at w) ≡ (
          if leb at now
          then (index_file services path (record w { timers = [] })).1
          else with_timer path at w)
  unfolding fire due waiting index_all
  fire_when now at path w = elim (Bool-cases (leb at now)) [ inl t ↦ rw t refl | inr f ↦ rw f refl ]

  scheduled :
      (now at : ℕ) (ev : FileEvent) (path : Bytes) (w : Watcher services)
      → ev.name ≡ path
      → (ev.create || ev.write) ≡ true
      → handle_event services now ev (with_timer path at w)
        ≡ with_timer path (now + debounce_delay) w
  unfolding handle_event schedule has_timer reset_timer
  scheduled now at ev path w n c = rw (c, n, (eqb_iff path path).1 refl) refl

  first_scheduled :
      (now : ℕ) (ev : FileEvent) (path : Bytes) (w : Watcher services)
      → ev.name ≡ path
      → (ev.create || ev.write) ≡ true
      → handle_event services now ev (fire services now (record w { timers = [] }))
        ≡ with_timer path (now + debounce_delay) w
  unfolding handle_event schedule has_timer fire due waiting index_all
  first_scheduled now ev path w n c = rw (c, n) refl

  watch-burst :
      (path : Bytes) (last : ℕ) (evs : List (ℕ × FileEvent)) (w : Watcher services)
      → IsBurst path last evs
      → watch services evs (with_timer path (last + debounce_delay) w)
        ≡ with_timer path (end last evs + debounce_delay) w
  unfolding watch
  watch-burst path last [] w b = refl
  watch-burst path last ((now, ev) ∷ evs) w (name, writes, after, before, rest) =
      ap (λ v. watch services evs (handle_event services now ev v))
        (not_due now (last + debounce_delay) path w before)
      ∙ ap (watch services evs) (scheduled now (last + debounce_delay) ev path w name writes)
      ∙ watch-burst path now evs w rest

  -- A file is created or written, any number of times, each time less than half a second after the
  -- time before, while nothing else is waiting: nothing is indexed during the burst, nor until half
  -- a second after its last event, and then the file is indexed, once.
  pub watch-fire_once :
      (path : Bytes) (first now : ℕ) (ev : FileEvent) (evs : List (ℕ × FileEvent))
      (w : Watcher services)
      → ev.name ≡ path
      → (ev.create || ev.write) ≡ true
      → IsBurst path first evs
      → fire services now (watch services ((first, ev) ∷ evs) (record w { timers = [] })) ≡ (
          if leb (end first evs + debounce_delay) now
          then (index_file services path (record w { timers = [] })).1
          else with_timer path (end first evs + debounce_delay) w)
  unfolding watch
  watch-fire_once path first now ev evs w name writes b =
      let at = end first evs + debounce_delay in
      ap (λ v. fire services now (watch services evs v))
        (first_scheduled first ev path w name writes)
      ∙ ap (fire services now) (watch-burst path first evs w b)
      ∙ fire_when now at path w
