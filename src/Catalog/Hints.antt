-- ===== src/Catalog/Hints.antt =====
-- The owners of a file: no node is listed twice, and a change concerns one node only.
use kin.Base.{
  ◌≡◌, refl, inl, inr, Bool, true, false, List, [], ◌∷◌, if◌then◌else◌, arith, Bytes, eqb, eqb_iff,
  Bool-cases,
}
use kin.Base.Times.{Time}
use kin.Catalog.{OwnerHint, see, forget}

unfoldable pub has_owner : Bytes → List OwnerHint → Bool
has_owner n [] = false
has_owner n (h ∷ hs) = if eqb h.node_id n then true else has_owner n hs

-- No node is listed twice.
abbrev pub IsNodup : List OwnerHint → Type 0
IsNodup [] = Unit
IsNodup (h ∷ hs) = (has_owner h.node_id hs ≡ false) × IsNodup hs

pub has_owner-see :
    (n m : Bytes) (now : Time) (hs : List OwnerHint)
    → has_owner m (see n now hs) ≡ (if eqb n m then true else has_owner m hs)
unfolding has_owner see
has_owner-see n m now [] = refl
has_owner-see n m now (h ∷ hs) =
    ground (arith, has_owner-see n m now hs, eqb_iff h.node_id n, eqb_iff h.node_id m, eqb_iff n m)

pub has_owner-forget :
    (n m : Bytes) (hs : List OwnerHint)
    → has_owner m (forget n hs) ≡ (if eqb n m then false else has_owner m hs)
unfolding has_owner forget
has_owner-forget n m [] = ground arith
has_owner-forget n m (h ∷ hs) =
    ground (arith, has_owner-forget n m hs, eqb_iff h.node_id n, eqb_iff h.node_id m, eqb_iff n m)

see-IsNodup : (n : Bytes) (now : Time) (hs : List OwnerHint) → IsNodup hs → IsNodup (see n now hs)
unfolding has_owner see
see-IsNodup n now [] h = (refl, tt)
see-IsNodup n now (x ∷ hs) h = elim (Bool-cases (eqb x.node_id n)) [
  | inl t ↦ rw t h
  | inr f ↦ rw f (
    ground (arith, has_owner-see n x.node_id now hs, eqb_iff x.node_id n, eqb_iff n x.node_id, h.0),
    see-IsNodup n now hs h.1,
  )
]

forget-IsNodup : (n : Bytes) (hs : List OwnerHint) → IsNodup hs → IsNodup (forget n hs)
unfolding has_owner forget
forget-IsNodup n [] h = tt
forget-IsNodup n (x ∷ hs) h = elim (Bool-cases (eqb x.node_id n)) [
  | inl t ↦ rw t (forget-IsNodup n hs h.1)
  | inr f ↦ rw f (
    ground (arith, has_owner-forget n x.node_id hs, eqb_iff x.node_id n, eqb_iff n x.node_id, h.0),
    forget-IsNodup n hs h.1,
  )
]

-- In a list where no node stands twice, recording and removing a node keep that so; after a record
-- the node is listed, after a removal it is not, and for every other node nothing changes.
pub hints_lem :
    (n : Bytes) (now : Time) (hs : List OwnerHint)
    → IsNodup hs
    → IsNodup (see n now hs)
      × IsNodup (forget n hs)
      × ((m : Bytes) → has_owner m (see n now hs) ≡ (if eqb n m then true else has_owner m hs))
      × ((m : Bytes) → has_owner m (forget n hs) ≡ (if eqb n m then false else has_owner m hs))
hints_lem n now hs h = (
  see-IsNodup n now hs h,
  forget-IsNodup n hs h,
  λ m. has_owner-see n m now hs,
  λ m. has_owner-forget n m hs,
)
