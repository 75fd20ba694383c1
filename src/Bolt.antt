-- ===== src/Bolt.antt =====
-- What the two stores use of bbolt and of encoding/json, as interfaces: neither is code of the
-- repository. A bucket is a set of key-value pairs in byte order; a transaction that fails leaves
-- the database as it was.
pub mod Keys
pub mod Order
pub mod Scan
pub mod Memory
use kin.Base.{
  ℕ, ◌≡◌, refl, ap, Bool, true, false, Option, none, some, List, [], ◌∷◌, if◌then◌else◌, Bytes, eqb,
  Result, ok, err,
}
use kin.Bolt.Keys.{lookup, IsSorted}

-- `Put` and `Delete` return an error for a key or value they cannot store.
pub record Bolt : Type 1 where
  pub Bucket : Type 0
  pub empty : Bucket
  pub pairs : Bucket → List (Bytes × Bytes)
  pub get : Bucket → Bytes → Option Bytes
  pub put : Bucket → Bytes → Bytes → Option Bucket
  pub delete : Bucket → Bytes → Option Bucket
  pub pairs-IsSorted : (b : Bucket) → IsSorted (pairs b)
  pub get-eq-lookup : (b : Bucket) (k : Bytes) → get b k ≡ lookup k (pairs b)
  pub get-empty : (k : Bytes) → get empty k ≡ none
  pub get-put :
      (b b' : Bucket) (k v j : Bytes)
      → put b k v ≡ some b'
      → get b' j ≡ (if eqb k j then some v else get b j)
  pub get-delete :
      (b b' : Bucket) (k j : Bytes)
      → delete b k ≡ some b'
      → get b' j ≡ (if eqb k j then none else get b j)

-- `json.Marshal` and `json.Unmarshal` at a type. What was marshalled is read back, but in texts
-- that are not UTF-8 Go replaces the bad bytes: `repair` is that replacement.
pub record Json (A : Type 0) : Type 0 where
  pub marshal : A → Option Bytes
  pub unmarshal : Bytes → Option A
  pub repair : A → A
  pub unmarshal-marshal :
      (a : A) (raw : Bytes) → marshal a ≡ some raw → unmarshal raw ≡ some (repair a)

-- `if err != nil { return e }` behind a call that gives a value or an error.
abbrev pub or_fail : {E A : Type 0} → Option A → E → Result E A
or_fail none e = err e
or_fail (some a) e = ok a

-- `db.Update`: the transaction's database on success, the old one on an error.
abbrev pub update : {E D : Type 0} → D → Result E D → Result E (Unit {0}) × D
update d (ok d') = (ok tt, d')
update d (err e) = (err e, d)

pub or_fail-eq-ok : {E A : Type 0} (o : Option A) (e : E) {a : A} → or_fail o e ≡ ok a → o ≡ some a
or_fail-eq-ok none e h = cc
or_fail-eq-ok (some b) e h = cc

pub update-eq-ok :
    {E D : Type 0} (d : D) (r : Result E D) {d' : D} → update d r ≡ (ok tt, d') → r ≡ ok d'
update-eq-ok d (ok d₁) h = ap ok (cc)
update-eq-ok d (err e) h = cc

-- What the old state has, and every new state that the transaction can give, holds after `Update`.
pub update-keeps {ℓ} :
    {E D : Type 0} (P : D → Type ℓ) (d : D) (r : Result E D)
    → P d
    → ((d' : D) → r ≡ ok d' → P d')
    → P (update d r).1
update-keeps P d (ok d') h k = k d' refl
update-keeps P d (err e) h k = h
