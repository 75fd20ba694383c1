-- ===== src/Bolt/Memory.antt =====
-- A bucket in memory, as a sorted list: the interface `Bolt` can be met. Values of up to 2 ^ 31 - 2
-- bytes are stored under keys of 1 to 32768 bytes, the limits that bbolt documents.
use mathlib.Core.Path.{subst}
use kin.Base.{
  ◌≡◌, refl, inl, inr, Bool, true, false, ◌&&◌, Option, none, some, [], ◌∷◌, leb, if◌then◌else◌,
  arith, length, All, All-weaken, Bytes, eqb, eqb_iff, Bool-cases, some_injective,
}
use kin.Bolt.{Bolt}
use kin.Bolt.Keys.{before, lookup, IsSorted}
use kin.Bolt.Order.{before_trans, before_total, before-eqb}
use kin.Bolt.Scan.{Pairs}

pub insert : Bytes → Bytes → Pairs → Pairs
insert k v [] = (k, v) ∷ []
insert k v ((j, w) ∷ ps) =
    if eqb k j
    then (k, v) ∷ ps
    else if before k j
    then (k, v) ∷ (j, w) ∷ ps
    else (j, w) ∷ insert k v ps

pub erase : Bytes → Pairs → Pairs
erase k [] = []
erase k ((j, w) ∷ ps) = if eqb k j then ps else (j, w) ∷ erase k ps

All-insert :
    (P : Bytes × Bytes → Type 0) (k v : Bytes) (ps : Pairs)
    → P (k, v)
    → All P ps
    → All P (insert k v ps)
unfolding insert
All-insert P k v [] h a = (h, tt)
All-insert P k v ((j, w) ∷ ps) h a = elim (Bool-cases (eqb k j)) [
  | inl t ↦ rw t (h, a.1)
  | inr f ↦ elim (Bool-cases (before k j)) [
    | inl t ↦ rw (f, t) (h, a)
    | inr g ↦ rw (f, g) (a.0, All-insert P k v ps h a.1)
  ]
]

All-erase : (P : Bytes × Bytes → Type 0) (k : Bytes) (ps : Pairs) → All P ps → All P (erase k ps)
unfolding erase
All-erase P k [] a = tt
All-erase P k ((j, w) ∷ ps) a = elim (Bool-cases (eqb k j)) [
  | inl t ↦ rw t a.1
  | inr f ↦ rw f (a.0, All-erase P k ps a.1)
]

pub insert-IsSorted : (k v : Bytes) (ps : Pairs) → IsSorted ps → IsSorted (insert k v ps)
unfolding insert
insert-IsSorted k v [] h = (tt, tt)
insert-IsSorted k v ((j, w) ∷ ps) h = elim (Bool-cases (eqb k j)) [
  | inl t ↦ rw (t, (eqb_iff k j).0 t) h
  | inr f ↦ elim (Bool-cases (before k j)) [
    | inl t ↦
        rw (f, t)
          (
            (
              t,
              All-weaken (λ q. before j q.0 ≡ true) (λ q. before k q.0 ≡ true) ps
                  (λ q. before_trans k j q.0 t) h.0,
            ),
            h,
          )
    | inr g ↦
        rw (f, g)
          (
            All-insert (λ q. before j q.0 ≡ true) k v ps (before_total k j f g) h.0,
            insert-IsSorted k v ps h.1,
          )
  ]
]

pub erase-IsSorted : (k : Bytes) (ps : Pairs) → IsSorted ps → IsSorted (erase k ps)
unfolding erase
erase-IsSorted k [] h = tt
erase-IsSorted k ((j, w) ∷ ps) h = elim (Bool-cases (eqb k j)) [
  | inl t ↦ rw t h.1
  | inr f ↦ rw f (All-erase (λ q. before j q.0 ≡ true) k ps h.0, erase-IsSorted k ps h.1)
]

lookup-insert :
    (k v j : Bytes) (ps : Pairs)
    → lookup j (insert k v ps) ≡ (if eqb k j then some v else lookup j ps)
unfolding insert lookup
lookup-insert k v j [] = refl
lookup-insert k v j ((i, w) ∷ ps) =
    ground (arith, lookup-insert k v j ps, eqb_iff k j, eqb_iff k i, eqb_iff i j)

-- A key that is before all others is not among them.
lookup_absent : (j : Bytes) (ps : Pairs) → All (λ q. before j q.0 ≡ true) ps → lookup j ps ≡ none
unfolding lookup
lookup_absent j [] a = refl
lookup_absent j ((i, w) ∷ ps) a =
    ground (arith, lookup_absent j ps a.1, before-eqb j i a.0, eqb_iff i j, eqb_iff j i)

lookup-erase :
    (k j : Bytes) (ps : Pairs)
    → IsSorted ps
    → lookup j (erase k ps) ≡ (if eqb k j then none else lookup j ps)
unfolding erase lookup
lookup-erase k j [] h = ground arith
lookup-erase k j ((i, w) ∷ ps) h =
    ground (
      arith,
      lookup-erase k j ps h.1,
      lookup_absent i ps h.0,
      eqb_iff k j,
      eqb_iff k i,
      eqb_iff i j,
    )

pub record Sorted : Type 0 where
  pub list : Pairs
  pub sorted : IsSorted list

abbrev pub storable : Bytes → Bytes → Bool
storable k v = leb 1 (length k) && leb (length k) 32768 && leb (length v) 2147483646

pub put : Sorted → Bytes → Bytes → Option Sorted
put b k v =
    if storable k v
    then some (record { list = insert k v b.list; sorted = insert-IsSorted k v b.list b.sorted })
    else none

-- What an `if` gives, it gives on its first branch.
given : (b : Bool) (c d : Sorted) → (if b then some c else none) ≡ some d → c ≡ d
given true c d h = some_injective h
given false c d h = cc

pub get-put_lem :
    (b b' : Sorted) (k v j : Bytes)
    → put b k v ≡ some b'
    → lookup j b'.list ≡ (if eqb k j then some v else lookup j b.list)
unfolding put
get-put_lem b b' k v j h =
    subst (λ (c : Sorted). lookup j c.list ≡ (if eqb k j then some v else lookup j b.list))
      (given (storable k v) _ b' h) (lookup-insert k v j b.list)

pub erased : Bytes → Sorted → Sorted
erased k b = record { list = erase k b.list; sorted = erase-IsSorted k b.list b.sorted }

pub get-delete_lem :
    (b b' : Sorted) (k j : Bytes)
    → some (erased k b) ≡ some b'
    → lookup j b'.list ≡ (if eqb k j then none else lookup j b.list)
unfolding erased
get-delete_lem b b' k j h =
    subst (λ (c : Sorted). lookup j c.list ≡ (if eqb k j then none else lookup j b.list))
      (some_injective h) (lookup-erase k j b.list b.sorted)

pub get-empty_lem : (k : Bytes) → lookup k [] ≡ none
unfolding lookup
get-empty_lem k = refl

unfoldable pub memory : Bolt
unfolding put erased insert erase lookup before
memory = record {
  Bucket = Sorted;
  empty = record { list = []; sorted = tt };
  pairs = λ b. b.list;
  get = λ b k. lookup k b.list;
  put = put;
  delete = λ b k. some (erased k b);
  pairs-IsSorted = λ b. b.sorted;
  get-eq-lookup = λ b k. refl;
  get-empty = get-empty_lem;
  get-put = get-put_lem;
  get-delete = get-delete_lem;
}
