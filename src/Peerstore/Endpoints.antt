-- ===== src/Peerstore/Endpoints.antt =====
-- `mergeEndpoints`: what it keeps, what it adds, and in which order.
use kin.Base.{
  ◌≡◌, refl, sym, ap, ◌∙◌, inl, inr, ◌||◌, List, [], ◌∷◌, ◌++◌, append-nil, append_assoc,
  if◌then◌else◌, arith, Bytes, eqb_iff, Bool-cases,
}
use kin.Peerstore.{contains, append_new, merge_endpoints}

-- The incoming endpoints that are not among the existing ones, in their order.
unfoldable pub fresh : List Bytes → List Bytes → List Bytes
fresh seen [] = []
fresh seen (ep ∷ eps) = if contains seen ep then fresh seen eps else ep ∷ fresh seen eps

append_new-fresh :
    (seen result incoming : List Bytes)
    → append_new seen result incoming ≡ result ++ fresh seen incoming
unfolding append_new fresh
append_new-fresh seen result [] = sym (append-nil result)
append_new-fresh seen result (ep ∷ eps) = elim (Bool-cases (contains seen ep)) [
  | inl t ↦ rw t (append_new-fresh seen result eps)
  | inr f ↦ rw f (
      append_new-fresh seen (result ++ ep ∷ []) eps
      ∙ append_assoc result (ep ∷ []) (fresh seen eps))
]

contains-append :
    (xs ys : List Bytes) (ep : Bytes) → contains (xs ++ ys) ep ≡ contains xs ep || contains ys ep
unfolding contains
contains-append [] ys ep = refl
contains-append (x ∷ xs) ys ep = ground (arith, contains-append xs ys ep)

contains-fresh :
    (seen incoming : List Bytes) (ep : Bytes)
    → contains seen ep || contains (fresh seen incoming) ep
      ≡ contains seen ep || contains incoming ep
unfolding fresh contains
contains-fresh seen [] ep = refl
contains-fresh seen (e ∷ es) ep = ground (arith, contains-fresh seen es ep, eqb_iff e ep)

-- The existing endpoints stay in front, in their order; behind them stand, in their order, exactly
-- the incoming ones that are not among the existing ones; and an endpoint is in the result exactly
-- when it is in one of the two lists.
pub merge_endpoints_lem :
    (existing incoming : List Bytes)
    → (merge_endpoints existing incoming ≡ existing ++ fresh existing incoming)
      × ((ep : Bytes)
          → contains (merge_endpoints existing incoming) ep
            ≡ contains existing ep || contains incoming ep)
unfolding merge_endpoints
merge_endpoints_lem existing incoming = (
  append_new-fresh existing existing incoming,
  λ ep.
      ap (λ l. contains l ep) (append_new-fresh existing existing incoming)
      ∙ contains-append existing (fresh existing incoming) ep
      ∙ contains-fresh existing incoming ep,
)
