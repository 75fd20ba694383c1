-- ===== src/Invite/Decoded.antt =====
-- What `unmarshal` accepts, from whatever bytes, has the sizes of a token.
use kin.Base.{
  ℕ, zero, suc, ◌+◌, ◌-◌, ◌≤◌, ◌<◌, ◌^◌, ◌≡◌, ◌∙◌, OnOk, OnOk-ok, OnOk-bind, value, failure,
  OnOk-weaken, some, Option-cases, not, eqb, inl, inr, List, [], ◌∷◌, ◌++◌, arith, ltb, min, length,
  take, drop, length-append, length-take, length-drop, All, All-append, All-take, All-drop, Bytes,
  ok, Bool-cases,
}
use kin.Base.BigEndian.{be_value, be_value-lt}
use kin.Base.Ints.{from_uint64-IsInt64}
use kin.Base.Times.{unix-from_unix}
use kin.Invite.{Token, slice, read_endpoints, read_tail, unmarshal, Crypto, decode, prefix}
use kin.Invite.RoundTrip.{IsToken}

abbrev pub IsByte : ℕ → Type 0
IsByte b = b < 256

slice-IsByte : (bs : Bytes) (i n : ℕ) → All IsByte bs → All IsByte (slice bs i n)
slice-IsByte bs i n h = All-take IsByte n (drop i bs) (All-drop IsByte i bs h)

length-slice : (bs : Bytes) (i n : ℕ) → length (slice bs i n) ≡ min n (length bs - i)
length-slice bs i n = omega (arith, length-take n (drop i bs), length-drop i bs)

u16-le : (bs : Bytes) (i : ℕ) → All IsByte bs → be_value (slice bs i 2) ≤ 0xFFFF
u16-le bs i h =
    let small : be_value (slice bs i 2) < 256 ^ 2 =
      be_value-lt 2 (slice bs i 2) (omega (arith, length-slice bs i 2)) (slice-IsByte bs i 2 h) in
    omega arith

-- The endpoints read, their number and sizes, and the room behind them.
record Read (n : ℕ) (bs : Bytes) (acc : List Bytes) (out : List Bytes × ℕ) : Type 0 where
  counted : length out.0 ≡ length acc + n
  sizes : All (λ ep. length ep ≤ 0xFFFF) out.0

read_endpoints-Read :
    (n : ℕ) (bs : Bytes) (offset : ℕ) (acc : List Bytes)
    → All IsByte bs
    → All (λ ep. length ep ≤ 0xFFFF) acc
    → OnOk (Read n bs acc) (read_endpoints n bs offset acc)
unfolding read_endpoints
read_endpoints-Read zero bs offset acc h a = value (record { counted = omega arith; sizes = a })
read_endpoints-Read (suc n) bs offset acc h a =
    let size = be_value (slice bs offset 2) in
    let text = slice bs (offset + 2) size in
    let small : length text ≤ 0xFFFF =
      omega (arith, u16-le bs offset h, length-slice bs (offset + 2) size) in
    let later =
      read_endpoints-Read n bs (offset + 2 + size) (acc ++ text ∷ []) h
        (All-append (λ ep. length ep ≤ 0xFFFF) acc (text ∷ []) a (small, tt)) in
    elim (Bool-cases (ltb (length bs - 16 - 8 - 64) (offset + 2))) [
      | inl e ↦ rw e failure
      | inr e ↦ rw e (elim (Bool-cases (ltb (length bs - 16 - 8 - 64) (offset + 2 + size))) [
        | inl e' ↦ rw e' failure
        | inr e' ↦ rw e' (
            OnOk-weaken (Read n bs (acc ++ text ∷ [])) (Read (suc n) bs acc) later (λ out r.
              record {
                counted = omega (arith, r.counted, length-append {0} acc (text ∷ []));
                sizes = r.sizes;
              }))
      ])
    ]

read_tail-IsToken :
    (bs key : Bytes) (out : List Bytes × ℕ)
    → All IsByte bs
    → length key ≡ 32
    → length out.0 ≤ 0xFFFF
    → All (λ ep. length ep ≤ 0xFFFF) out.0
    → 122 ≤ length bs
    → OnOk IsToken (read_tail bs key out)
unfolding read_tail
read_tail-IsToken bs key (eps, offset) h k c s n =
    elim (Bool-cases (ltb (length bs - 8 - 64) (offset + 16))) [
      | inl e ↦ rw e failure
      | inr e ↦ rw e (elim (Bool-cases (ltb (length bs - 64) (offset + 16 + 8))) [
        | inl e' ↦ rw e' failure
        | inr e' ↦ rw e' (
            value (record {
              key_size = k;
              count = c;
              sizes = s;
              nonce_size = length-slice bs offset 16 ∙ ground arith;
              expiry = rw unix-from_unix (
                  from_uint64-IsInt64 _ (
                    be_value-lt 8 (slice bs (offset + 16) 8)
                      (omega (arith, length-slice bs (offset + 16) 8))
                      (slice-IsByte bs (offset + 16) 8 h)));
            }))
      ])
    ]

unmarshal-OnOk : (bs : Bytes) → All IsByte bs → OnOk IsToken (unmarshal bs)
unfolding unmarshal
unmarshal-OnOk bs h = elim (Bool-cases (ltb (length bs) 122)) [
  | inl e ↦ rw e failure
  | inr e ↦ rw e (
      OnOk-bind (Read (be_value (slice bs 32 2)) bs []) IsToken _ _
        (read_endpoints-Read (be_value (slice bs 32 2)) bs 34 [] h tt)
        (λ out r.
          read_tail-IsToken bs (slice bs 0 32) out h (length-slice bs 0 32 ∙ ground arith)
            (omega (arith, r.counted, u16-le bs 32 h)) r.sizes (ground arith)))
]

decode-OnOk :
    (c : Crypto) (raw : Bytes)
    → ((bs : Bytes) → c.decode64 (drop 4 raw) ≡ some bs → All IsByte bs)
    → OnOk IsToken (decode c raw)
unfolding decode
decode-OnOk c raw bytes = elim (Bool-cases (not (eqb (take 4 raw) prefix))) [
  | inl e ↦ rw e failure
  | inr e ↦ rw e (elim (Option-cases (c.decode64 (drop 4 raw))) [
    | inl e' ↦ rw e' failure
    | inr (bs, e') ↦ rw e' (unmarshal-OnOk bs (bytes bs e'))
  ])
]

-- A token that `Decode` returns, whatever text it was given, has a 32-byte key, a 16-byte nonce, at
-- most 65535 endpoints of at most 65535 bytes each, and an expiry in the range of an `int64`.
pub decode-IsToken :
    (c : Crypto) (raw : Bytes) (t : Token)
    → ((bs : Bytes) → c.decode64 (drop 4 raw) ≡ some bs → All IsByte bs)
    → decode c raw ≡ ok t
    → IsToken t
decode-IsToken c raw t bytes e = OnOk-ok IsToken (decode c raw) (decode-OnOk c raw bytes) e
