-- ===== src/Bolt/Scan.antt =====
-- The cursor loop `for k, v := c.Seek(p); k != nil && bytes.HasPrefix(k, p); k, v = c.Next()`.
use kin.Base.{
  arith, ◌≡◌, refl, ap, inl, inr, true, false, List, [], ◌∷◌, if◌then◌else◌, All, All-weaken, none,
  eqb_iff, Bytes, Bool-cases,
}
use kin.Bolt.Keys.{before, has_prefix, lookup, IsSorted}
use kin.Bolt.Order.{has_prefix-before, has_prefix-later, before_later}

abbrev pub Pairs : Type 0
Pairs = List (Bytes × Bytes)

-- `c.Seek(p)`: the pairs from the first key that is not before `p`.
pub seek : Bytes → Pairs → Pairs
seek p [] = []
seek p ((k, v) ∷ ps) = if before k p then seek p ps else (k, v) ∷ ps

-- The rest of the loop, up to the first key without the prefix.
pub while_prefix : Bytes → Pairs → Pairs
while_prefix p [] = []
while_prefix p ((k, v) ∷ ps) = if has_prefix k p then (k, v) ∷ while_prefix p ps else []

unfoldable pub scan : Bytes → Pairs → Pairs
unfolding seek while_prefix
scan p ps = while_prefix p (seek p ps)

-- All pairs whose key has the prefix, in order.
unfoldable pub with_prefix : Bytes → Pairs → Pairs
with_prefix p [] = []
with_prefix p ((k, v) ∷ ps) = if has_prefix k p then (k, v) ∷ with_prefix p ps else with_prefix p ps

none_later :
    (k p : Bytes) (ps : Pairs)
    → before k p ≡ false
    → has_prefix k p ≡ false
    → All (λ q. before k q.0 ≡ true) ps
    → with_prefix p ps ≡ []
unfolding with_prefix
none_later k p [] a b h = refl
none_later k p ((j, v) ∷ ps) a b h = rw (has_prefix-later k j p a b h.0) (none_later k p ps a b h.1)

-- From keys that are not before the prefix on, the loop sees all that have it.
while_prefix_lem :
    (p : Bytes) (ps : Pairs)
    → All (λ q. before q.0 p ≡ false) ps
    → IsSorted ps
    → while_prefix p ps ≡ with_prefix p ps
unfolding while_prefix with_prefix
while_prefix_lem p [] a h = refl
while_prefix_lem p ((k, v) ∷ ps) a h = elim (Bool-cases (has_prefix k p)) [
  | inl t ↦ rw t (ap (λ z. (k, v) ∷ z) (while_prefix_lem p ps a.1 h.1))
  | inr f ↦ rw (f, none_later k p ps a.0 f h.0) refl
]

not_before_later :
    (k p : Bytes) (ps : Pairs)
    → before k p ≡ false
    → All (λ q. before k q.0 ≡ true) ps
    → All (λ q. before q.0 p ≡ false) ps
not_before_later k p ps a =
    All-weaken (λ q. before k q.0 ≡ true) (λ q. before q.0 p ≡ false) ps
      (λ q. before_later k q.0 p a)

-- In a sorted bucket the cursor loop visits exactly the pairs whose key has the prefix.
pub scan-eq-with_prefix : (p : Bytes) (ps : Pairs) → IsSorted ps → scan p ps ≡ with_prefix p ps
unfolding scan with_prefix
scan-eq-with_prefix p [] h = refl
scan-eq-with_prefix p ((k, v) ∷ ps) h = elim (Bool-cases (before k p)) [
  | inl t ↦ rw (t, has_prefix-before k p t) (scan-eq-with_prefix p ps h.1)
  | inr f ↦ rw f (while_prefix_lem p ((k, v) ∷ ps) (f, not_before_later k p ps f h.0) h)
]

-- The pairs with a prefix are the bucket's, at the keys that have it.
pub lookup-with_prefix :
    (p j : Bytes) (ps : Pairs)
    → lookup j (with_prefix p ps) ≡ (if has_prefix j p then lookup j ps else none)
unfolding with_prefix lookup
lookup-with_prefix p j [] = ground arith
lookup-with_prefix p j ((k, v) ∷ ps) = ground (arith, lookup-with_prefix p j ps, eqb_iff k j)
