-- ===== src/Invite/Lifetime.antt =====
-- A token that `Create` makes is in time when it is made.
use kin.Base.{
  ◌≡◌, ◌⊎◌, refl, inl, inr, true, false, some, List, if◌then◌else◌, arith, Bytes, ok, Bool-cases,
}
use kin.Base.Ints.{pos, leb_ℤ, +ℤ_parts}
use kin.Base.Times.{Time, Duration, unix, from_unix, after, add, unix_within}
use kin.Invite.{Token, default_ttl, create}

-- The duration that `Create` uses.
pub ttl_of : Duration → Duration
ttl_of ttl = if leb_ℤ ttl (pos 0) then default_ttl else ttl

ttl_of_second :
    (ttl : Duration)
    → (leb_ℤ ttl (pos 0) ≡ true) ⊎ (leb_ℤ (pos 1000000000) ttl ≡ true)
    → leb_ℤ (pos 1000000000) (ttl_of ttl) ≡ true
unfolding ttl_of
ttl_of_second ttl (inl h) = rw h refl
ttl_of_second ttl (inr h) = elim (Bool-cases (leb_ℤ ttl (pos 0))) [
  | inl t ↦ rw t refl
  | inr f ↦ rw f h
]

in_time :
    (now : Time) (d : Duration)
    → leb_ℤ (pos 1000000000) d ≡ true
    → after now (from_unix (unix (add now d))) ≡ false
in_time now d h = ground (arith, +ℤ_parts now d, unix_within (add now d))

-- With a lifetime of a second or more, or with none given, `Create` keeps the key, the endpoints
-- and the nonce it drew, and the token, its expiry rounded down to the second as on the wire, has
-- not expired at the moment it is made.
pub create_in_time :
    (public nonce : Bytes) (now : Time) (endpoints : List Bytes) (ttl : Duration)
    → (leb_ℤ ttl (pos 0) ≡ true) ⊎ (leb_ℤ (pos 1000000000) ttl ≡ true)
    → (t : Token) × (create public (some nonce) now endpoints ttl ≡ ok t)
      × (t.public_key ≡ public)
      × (t.endpoints ≡ endpoints)
      × (t.nonce ≡ nonce)
      × (after now (from_unix (unix t.expires_at)) ≡ false)
unfolding create
create_in_time public nonce now endpoints ttl h = (
  record {
    public_key = public;
    endpoints = endpoints;
    nonce = nonce;
    expires_at = add now (ttl_of ttl);
  },
  unfold ttl_of in refl,
  refl,
  refl,
  refl,
  in_time now (ttl_of ttl) (ttl_of_second ttl h),
)
