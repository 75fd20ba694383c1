-- ===== src/Ipc/Subscribers/Delivery.antt =====
-- A broadcast reaches every subscriber whose connection takes it, and drops the others.
use mathlib.Core.Path.{subst}
use kin.Base.{
  ℕ, ◌-◌, ◌≡◌, ◌≢◌, refl, sym, ap, ◌∙◌, Bool, true, false, not, ◌&&◌, ◌||◌, List, [], ◌∷◌, ◌++◌,
  ◌==◌, leb, arith, if◌then◌else◌, length, Bytes, Result, ok, err, Bool-cases, inl, inr,
}
use kin.Base.Streams.{Writer}
use kin.Bolt.{Json}
use kin.Ipc.{Response, Event}
use kin.Ipc.Framing.{
  WriteError, Fits, frame, write_json, write_json-frame, write_json-short, Failed,
}
use kin.Ipc.Subscribers.{
  Subscriber, Server, set_sub, remove_first, remove_sub, close_sub, written, send, drop_failed,
  broadcast_loop, broadcast,
}

unfoldable pub has : ℕ → List ℕ → Bool
has i [] = false
has i (j ∷ js) = if j == i then true else has i js

abbrev pub IsNodup : List ℕ → Type 0
IsNodup [] = Unit {0}
IsNodup (j ∷ js) = (has j js ≡ false) × IsNodup js

has-remove_first :
    (i j : ℕ) (js : List ℕ)
    → IsNodup js
    → has j (remove_first i js) ≡ (if i == j then false else has j js)
unfolding has remove_first
has-remove_first i j [] h = ground arith
has-remove_first i j (k ∷ ks) (h, nodup) = ground (arith, has-remove_first i j ks nodup)

remove_first-IsNodup : (i : ℕ) (js : List ℕ) → IsNodup js → IsNodup (remove_first i js)
unfolding has remove_first
remove_first-IsNodup i [] h = tt
remove_first-IsNodup i (k ∷ ks) (h, nodup) = elim (Bool-cases (k == i)) [
  | inl e ↦ rw e nodup
  | inr e ↦ rw e (has-remove_first i k ks nodup ∙ ground arith, remove_first-IsNodup i ks nodup)
]

eq_self : (k : ℕ) → (k == k) ≡ true
eq_self k = ground arith

eq_of : (k i : ℕ) → (k == i) ≡ true → k ≡ i
eq_of k i e = ground arith

drop_true : (a b : Bool) → ((a && true) && b) ≡ (a && b)
drop_true true b = refl
drop_true false b = refl

and_lem : (a b : Bool) → (a && (not a || b)) ≡ (a && b)
and_lem true b = refl
and_lem false b = refl

false_not_true : false ≢ true
false_not_true e = cc

set_sub_same : (i : ℕ) (x : Subscriber) (f : ℕ → Subscriber) → set_sub i x f i ≡ x
unfolding set_sub
set_sub_same i x f = ground arith

set_sub_other :
    (i j : ℕ) (x : Subscriber) (f : ℕ → Subscriber) → (i == j) ≡ false → set_sub i x f j ≡ f j
unfolding set_sub
set_sub_other i j x f h = ground arith

module _ (events : Json Event) (responses : Json Response) where
  module _ (ev : Event) (body : Bytes) (fits : Fits events ev body) where
    -- Whether a subscriber takes the event, and what it is then.
    abbrev pub takes : Subscriber → Bool
    takes sub = not sub.closed && (sub.deadline_ok && leb (length (frame body)) sub.outgoing.room)

    abbrev pub given : Subscriber → Subscriber
    given sub = record sub {
      outgoing = record {
        written = sub.outgoing.written ++ frame body;
        room = sub.outgoing.room - length (frame body);
      };
    }

    -- What has become of one subscriber, and of the others and the list.
    record Served (i : ℕ) (s s' : Server) : Type 0 where
      taken : takes (s.subs i) ≡ true → s'.subs i ≡ given (s.subs i)
      refused : takes (s.subs i) ≡ false → (s'.subs i).closed ≡ true
      others : (j : ℕ) → (i == j) ≡ false → s'.subs j ≡ s.subs j
      list :
          s'.subscribers
          ≡ (if takes (s.subs i) then s.subscribers else remove_first i s.subscribers)

    not_taken :
        (i : ℕ) (s s1 : Server)
        → takes (s.subs i) ≡ false
        → ((j : ℕ) → (i == j) ≡ false → s1.subs j ≡ s.subs j)
        → s1.subscribers ≡ s.subscribers
        → Served i s (close_sub i (remove_sub i s1))
    unfolding remove_sub close_sub
    not_taken i s s1 n same list = record {
      taken = λ y. absurd (false_not_true (sym n ∙ y));
      refused = λ _.
          ap (λ (x : Subscriber). x.closed)
            (set_sub_same i (record (s1.subs i) { closed = true }) s1.subs);
      others = λ j h. set_sub_other i j (record (s1.subs i) { closed = true }) s1.subs h ∙ same j h;
      list = rw (n, list) refl;
    }

    failed_lem :
        (i : ℕ) (s : Server) (out : Result WriteError (Unit {0}) × Writer)
        → takes (s.subs i) ≡ false
        → Failed events out
        → Served i s (drop_failed events responses i (written events responses i s out))
    failed_lem i s (ok u, w) n h = absurd h
    failed_lem i s (err e, w) n h =
        not_taken i s (record s { subs = set_sub i (record (s.subs i) { outgoing = w }) s.subs }) n
          (λ j k. set_sub_other i j (record (s.subs i) { outgoing = w }) s.subs k) refl

    taken_lem :
        (i : ℕ) (s : Server)
        → takes (s.subs i) ≡ true
        → Served i s (record s { subs = set_sub i (given (s.subs i)) s.subs })
    taken_lem i s y = record {
      taken = λ _. set_sub_same i (given (s.subs i)) s.subs;
      refused = λ n. absurd (false_not_true (sym n ∙ y));
      others = λ j h. set_sub_other i j (given (s.subs i)) s.subs h;
      list = rw y refl;
    }

    open_lem :
        (i : ℕ) (s : Server)
        → (s.subs i).closed ≡ false
        → (s.subs i).deadline_ok ≡ true
        → Served i s (
            drop_failed events responses i
              (written events responses i s (write_json events ev (s.subs i).outgoing)))
    open_lem i s c d = elim (Bool-cases (leb (length (frame body)) (s.subs i).outgoing.room)) [
      | inl room ↦
          rw
            (write_json-frame events ev body (s.subs i).outgoing.written (s.subs i).outgoing.room
              fits (ground arith))
            (taken_lem i s (rw (c, d) room))
      | inr full ↦
          failed_lem i s (write_json events ev (s.subs i).outgoing) (rw (c, d) full)
            (write_json-short events ev body (s.subs i).outgoing fits (ground arith))
    ]

    step-Served :
        (i : ℕ) (s : Server)
        → Served i s (drop_failed events responses i (send events responses ev i s))
    unfolding send
    step-Served i s = elim (Bool-cases (s.subs i).closed) [
      | inl c ↦ rw c (not_taken i s s (rw c refl) (λ j h. refl) refl)
      | inr c ↦ elim (Bool-cases (s.subs i).deadline_ok) [
        | inl d ↦ rw (c, d) (open_lem i s c d)
        | inr d ↦ rw (c, d) (not_taken i s s (rw (c, d) refl) (λ j h. refl) refl)
      ]
    ]

    -- What has become of a subscriber, by whether the broadcast came to it and whether it takes the
    -- event.
    abbrev pub Fate : Bool → Bool → Subscriber → Subscriber → Type 0
    Fate true true x x' = x' ≡ given x
    Fate true false x x' = x'.closed ≡ true
    Fate false t x x' = x' ≡ x

    abbrev Come : ℕ → List ℕ → Server → Server → Type 0
    Come i ks s s' =
        Fate (has i ks) (takes (s.subs i)) (s.subs i) (s'.subs i)
        × (has i s'.subscribers ≡ (has i s.subscribers && (not (has i ks) || takes (s.subs i))))

    -- The list behind one step, and that nothing stands twice in it.
    list_lem :
        (k i : ℕ) (s s1 : Server)
        → Served k s s1
        → IsNodup s.subscribers
        → has i s1.subscribers ≡ (has i s.subscribers && (not (k == i) || takes (s.subs k)))
    list_lem k i s s1 h nodup = elim (Bool-cases (takes (s.subs k))) [
      | inl t ↦ rw (h.list, t) (ground arith)
      | inr t ↦ rw (h.list, t) (has-remove_first k i s.subscribers nodup ∙ ground arith)
    ]

    step-IsNodup :
        (k : ℕ) (s s1 : Server) → Served k s s1 → IsNodup s.subscribers → IsNodup s1.subscribers
    step-IsNodup k s s1 h nodup = elim (Bool-cases (takes (s.subs k))) [
      | inl t ↦ rw (h.list, t) nodup
      | inr t ↦ rw (h.list, t) (remove_first-IsNodup k s.subscribers nodup)
    ]

    here :
        (k : ℕ) (ks : List ℕ) (s s1 s' : Server)
        → Served k s s1
        → IsNodup s.subscribers
        → has k ks ≡ false
        → Come k ks s1 s'
        → Come k (k ∷ ks) s s'
    unfolding has
    here k ks s s1 s' h nodup new (fate, list) =
        let one : s'.subs k ≡ s1.subs k =
          subst (λ b. Fate b (takes (s1.subs k)) (s1.subs k) (s'.subs k)) new fate in
        let before = list_lem k k s s1 h nodup in
        elim (Bool-cases (takes (s.subs k))) [
          | inl t ↦
              rw (eq_self k, t)
                (one ∙ h.taken t, list ∙ rw (new, before, eq_self k, t) (ground arith))
          | inr t ↦
              rw (eq_self k, t)
                (
                  ap (λ (x : Subscriber). x.closed) one ∙ h.refused t,
                  list ∙ rw (new, before, eq_self k, t) (ground arith),
                )
        ]

    there :
        (k i : ℕ) (ks : List ℕ) (s s1 s' : Server)
        → Served k s s1
        → IsNodup s.subscribers
        → (k == i) ≡ false
        → Come i ks s1 s'
        → Come i (k ∷ ks) s s'
    unfolding has
    there k i ks s s1 s' h nodup ne (fate, list) =
        let same : s1.subs i ≡ s.subs i = h.others i ne in
        let before = list_lem k i s s1 h nodup in
        rw ne (
          subst (λ (x : Subscriber). Fate (has i ks) (takes x) x (s'.subs i)) same fate,
          list
              ∙ rw (same, before, ne)
                  (drop_true (has i s.subscribers) (not (has i ks) || takes (s.subs i))),
        )

    loop-Come :
        (i : ℕ) (ks : List ℕ) (s : Server)
        → IsNodup ks
        → IsNodup s.subscribers
        → Come i ks s (broadcast_loop events responses ev ks s)
    unfolding broadcast_loop has
    loop-Come i [] s a b = (refl, ground arith)
    loop-Come i (k ∷ ks) s (new, a) b =
        let s1 = drop_failed events responses k (send events responses ev k s) in
        let s' = broadcast_loop events responses ev ks s1 in
        let h = step-Served k s in
        let rest = loop-Come i ks s1 a (step-IsNodup k s s1 h b) in
        elim (Bool-cases (k == i)) [
          | inl e ↦
              subst (λ j. Come j (k ∷ ks) s s') (eq_of k i e)
                (here k ks s s1 s' h b new (subst (λ j. Come j ks s1 s') (sym (eq_of k i e)) rest))
          | inr ne ↦ there k i ks s s1 s' h b ne rest
        ]

    loop-IsNodup :
        (ks : List ℕ) (s : Server)
        → IsNodup s.subscribers
        → IsNodup (broadcast_loop events responses ev ks s).subscribers
    unfolding broadcast_loop
    loop-IsNodup [] s h = h
    loop-IsNodup (k ∷ ks) s h = loop-IsNodup ks _ (step-IsNodup k s _ (step-Served k s) h)

    pub broadcast-IsNodup :
        (s : Server) → IsNodup s.subscribers → IsNodup (broadcast events responses ev s).subscribers
    unfolding broadcast
    broadcast-IsNodup s h = loop-IsNodup s.subscribers s h

    -- A broadcast of an event that fits into a message, where no subscriber is registered twice: a
    -- registered subscriber that is open and whose connection takes the frame has got it, behind what
    -- it got before, and stays registered; every other registered one is closed and is no longer
    -- registered; and nobody else is touched.
    pub broadcast-delivered :
        (i : ℕ) (s : Server)
        → IsNodup s.subscribers
        → Fate
            (has i s.subscribers)
            (takes (s.subs i))
            (s.subs i)
            ((broadcast events responses ev s).subs i)
          × (has i (broadcast events responses ev s).subscribers
              ≡ (has i s.subscribers && takes (s.subs i)))
    unfolding broadcast
    broadcast-delivered i s nodup =
        let (fate, list) = loop-Come i s.subscribers s nodup nodup in
        (fate, list ∙ and_lem (has i s.subscribers) (takes (s.subs i)))
