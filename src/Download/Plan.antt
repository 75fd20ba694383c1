-- ===== src/Download/Plan.antt =====
-- Which owners a download asks, and in which order.
use mathlib.Core.Path.{subst}
use kin.Base.{
  ◌≡◌, ◌≢◌, refl, sym, ap, ◌∙◌, ◌⊎◌, inl, inr, Bool, true, false, List, [], ◌∷◌, arith, Bytes, eqb,
  eqb_iff, Bool-cases,
}
use kin.Base.Ints.{leb_ℤ}
use kin.Catalog.{OwnerHint}
use kin.Download.{filter_self, seen_later}

-- An item of a list.
abbrev pub IsIn : OwnerHint → List OwnerHint → Type 0
IsIn o [] = ⊥
IsIn o (p ∷ ps) = (o ≡ p) ⊎ IsIn o ps

-- The owner that was seen last comes first, and so on.
abbrev pub IsBefore : OwnerHint → List OwnerHint → Type 0
IsBefore o [] = Unit
IsBefore o (p ∷ ps) = leb_ℤ p.seen_at o.seen_at ≡ true

abbrev pub IsLatestFirst : List OwnerHint → Type 0
IsLatestFirst [] = Unit
IsLatestFirst (o ∷ os) = IsBefore o os × IsLatestFirst os

-- What sort.Slice promises: the same items, none of them less than the one before it.
abbrev pub IsNotLess : (OwnerHint → OwnerHint → Bool) → OwnerHint → List OwnerHint → Type 0
IsNotLess less o [] = Unit
IsNotLess less o (p ∷ ps) = less p o ≡ false

abbrev pub InOrder : (OwnerHint → OwnerHint → Bool) → List OwnerHint → Type 0
InOrder less [] = Unit
InOrder less (o ∷ os) = IsNotLess less o os × InOrder less os

pub record IsSortOf (less : OwnerHint → OwnerHint → Bool) (os os' : List OwnerHint) : Type 0 where
  pub keeps : (o : OwnerHint) → IsIn o os → IsIn o os'
  pub adds_none : (o : OwnerHint) → IsIn o os' → IsIn o os
  pub in_order : InOrder less os'

-- The owners that are not the node itself, each of them, and the latest first.
pub record IsPlan (self_id : Bytes) (owners plan : List OwnerHint) : Type 0 where
  pub others : (o : OwnerHint) → IsIn o plan → IsIn o owners × (o.node_id ≢ self_id)
  pub each : (o : OwnerHint) → IsIn o owners → o.node_id ≢ self_id → IsIn o plan
  pub latest_first : IsLatestFirst plan

IsIn-filter_self :
    (self_id : Bytes) (o : OwnerHint) (os : List OwnerHint)
    → o.node_id ≢ self_id
    → IsIn o os
    → IsIn o (filter_self self_id os)
unfolding filter_self
IsIn-filter_self self_id o [] ne m = m
IsIn-filter_self self_id o (p ∷ os) ne m = elim (Bool-cases (eqb p.node_id self_id)) [
  | inl t ↦ elim m [
    | inl same ↦
        absurd (ne (ap (λ (q : OwnerHint). q.node_id) same ∙ (eqb_iff p.node_id self_id).0 t))
    | inr later ↦ rw t (IsIn-filter_self self_id o os ne later)
  ]
  | inr f ↦ elim m [
    | inl same ↦ rw f (inl same)
    | inr later ↦ rw f (inr (IsIn-filter_self self_id o os ne later))
  ]
]

filter_self-others :
    (self_id : Bytes) (o : OwnerHint) (os : List OwnerHint)
    → IsIn o (filter_self self_id os)
    → IsIn o os × (o.node_id ≢ self_id)
unfolding filter_self
filter_self-others self_id o [] m = absurd m
filter_self-others self_id o (p ∷ os) m = elim (Bool-cases (eqb p.node_id self_id)) [
  | inl t ↦ let (isin, ne) = filter_self-others self_id o os (rw t at m) in (inr isin, ne)
  | inr f ↦ elim (rw f at m) [
    | inl same ↦ (
      inl same,
      subst (λ (q : OwnerHint). q.node_id ≢ self_id) (sym same)
          (λ e. differs p.node_id self_id f e),
    )
    | inr later ↦ let (isin, ne) = filter_self-others self_id o os later in (inr isin, ne)
  ]
]
  where
    differs : (x y : Bytes) → eqb x y ≡ false → x ≡ y → ⊥
    differs x y f e = cc ((eqb_iff x y).1 e)

latest_first_lem : (os : List OwnerHint) → InOrder seen_later os → IsLatestFirst os
unfolding seen_later
latest_first_lem [] h = tt
latest_first_lem (o ∷ []) h = (tt, tt)
latest_first_lem (o ∷ p ∷ os) (h, rest) = (ground arith, latest_first_lem (p ∷ os) rest)

pub none_in : (os : List OwnerHint) → ((o : OwnerHint) → IsIn o os → ⊥) → os ≡ []
none_in [] h = refl
none_in (o ∷ os) h = absurd (h o (inl refl))

pub plan_lem :
    (self_id : Bytes) (owners plan : List OwnerHint)
    → IsSortOf seen_later (filter_self self_id owners) plan
    → IsPlan self_id owners plan
plan_lem self_id owners plan s = record {
  others = λ o m. filter_self-others self_id o owners (s.adds_none o m);
  each = λ o m ne. s.keeps o (IsIn-filter_self self_id o owners ne m);
  latest_first = latest_first_lem plan s.in_order;
}
