-- ===== src/Invite/RoundTrip.antt =====
-- A token that is encoded and decoded is the token, its expiry rounded down to the second.
use kin.Base.{
  ℕ, ◌+◌, ◌≤◌, ◌^◌, ◌%◌, ◌≡◌, refl, sym, ap, ◌∙◌, List, [], ◌∷◌, ◌++◌, append_assoc, append-nil,
  arith, length, take, drop, length-append, take-append, drop-append, drop-drop, All, Bytes, eqb,
  ok,
}
use kin.Base.BigEndian.{be_bytes, be_value, length-be_bytes, be_value-be_bytes}
use kin.Base.Ints.{IsInt64, to_uint64, from_uint64-to_uint64, to_uint64-lt}
use kin.Base.Times.{unix, from_unix}
use kin.Invite.{
  Token, marshal_endpoints, marshal_payload, slice, read_endpoints, read_tail, unmarshal, Crypto,
  encode, decode, prefix,
}

-- The tokens that the wire format can hold.
pub record IsToken (t : Token) : Type 0 where
  pub key_size : length t.public_key ≡ 32
  pub count : length t.endpoints ≤ 0xFFFF
  pub sizes : All (λ ep. length ep ≤ 0xFFFF) t.endpoints
  pub nonce_size : length t.nonce ≡ 16
  pub expiry : IsInt64 (unix t.expires_at)

-- The wire form of the endpoints.
wire : List Bytes → Bytes
wire [] = []
wire (ep ∷ eps) = be_bytes 2 (length ep % 2 ^ 16) ++ (ep ++ wire eps)

u16_lem : (n : ℕ) → n ≤ 0xFFFF → be_value (be_bytes 2 (n % 2 ^ 16)) ≡ n
u16_lem n h = be_value-be_bytes 2 (n % 2 ^ 16) (omega arith) ∙ omega arith

marshal_endpoints_lem :
    (buf : Bytes) (eps : List Bytes)
    → All (λ ep. length ep ≤ 0xFFFF) eps
    → marshal_endpoints buf eps ≡ ok (buf ++ wire eps)
unfolding marshal_endpoints wire
marshal_endpoints_lem buf [] h = ap ok (sym (append-nil buf))
marshal_endpoints_lem buf (ep ∷ eps) h =
    let size = be_bytes 2 (length ep % 2 ^ 16) in
    ground (
      arith,
      marshal_endpoints_lem ((buf ++ size) ++ ep) eps h.1,
      append_assoc (buf ++ size) ep (wire eps),
      append_assoc buf size (ep ++ wire eps),
    )

-- What a slice finds, and what stands behind it.
cut_lem :
    (n i : ℕ) (bs xs ys : Bytes)
    → drop i bs ≡ xs ++ ys
    → length xs ≡ n
    → (slice bs i n ≡ xs) × (drop (i + n) bs ≡ ys)
cut_lem n i bs xs ys at e = (
  ap (take n) at ∙ take-append n xs ys e,
  sym (drop-drop n i (i + n) bs refl) ∙ ap (drop n) at ∙ drop-append n xs ys e,
)

-- The loop reads back what stands at the offset, with room for the fields behind it.
read_endpoints_lem :
    (eps : List Bytes) (bs tail : Bytes) (offset : ℕ) (acc : List Bytes)
    → All (λ ep. length ep ≤ 0xFFFF) eps
    → drop offset bs ≡ wire eps ++ tail
    → length bs ≡ offset + length (wire eps ++ tail)
    → 88 ≤ length tail
    → read_endpoints (length eps) bs offset acc ≡ ok (acc ++ eps, offset + length (wire eps))
unfolding read_endpoints wire
read_endpoints_lem [] bs tail offset acc h d n room = ground (arith, append-nil acc)
read_endpoints_lem (ep ∷ eps) bs tail offset acc h d n room =
    let size = be_bytes 2 (length ep % 2 ^ 16) in
    let rest = wire eps ++ tail in
    let at : drop offset bs ≡ size ++ (ep ++ rest) =
      d
      ∙ append_assoc size (ep ++ wire eps) tail
      ∙ ap (λ z. size ++ z) (append_assoc ep (wire eps) tail) in
    let (got, behind) = cut_lem 2 offset bs size (ep ++ rest) at (length-be_bytes 2 _) in
    let (text, after) = cut_lem (length ep) (offset + 2) bs ep rest behind refl in
    let next = read_endpoints_lem eps bs tail (offset + 2 + length ep) (acc ++ ep ∷ []) h.1 after in
    let lengths : length (wire (ep ∷ eps)) ≡ 2 + (length ep + length (wire eps)) = omega (
      arith,
      length-append {0} size (ep ++ wire eps),
      length-append {0} ep (wire eps),
      length-be_bytes 2 (length ep % 2 ^ 16),
    ) in
    rw (got, u16_lem (length ep) h.0, text)
      (ground (
        arith,
        next,
        append_assoc acc (ep ∷ []) eps,
        lengths,
        length-append (wire (ep ∷ eps)) tail,
        length-append (wire eps) tail,
      ))

-- The signed part of a token that the format can hold.
pub payload : Token → Bytes
payload t =
    (((t.public_key ++ be_bytes 2 (length t.endpoints % 2 ^ 16)) ++ wire t.endpoints) ++ t.nonce)
    ++ be_bytes 8 (to_uint64 (unix t.expires_at))

pub marshal_payload_lem : (t : Token) → IsToken t → marshal_payload t ≡ ok (payload t)
unfolding marshal_payload payload
marshal_payload_lem t h = ground (
  arith,
  h.key_size,
  h.count,
  marshal_endpoints_lem (t.public_key ++ be_bytes 2 (length t.endpoints % 2 ^ 16)) t.endpoints
      h.sizes,
)

-- The payload and what follows it, bracketed to the right.
payload-append :
    (t : Token) (sig : Bytes)
    → payload t ++ sig
      ≡ t.public_key
        ++ (be_bytes 2 (length t.endpoints % 2 ^ 16)
            ++ (wire t.endpoints
                ++ (t.nonce ++ (be_bytes 8 (to_uint64 (unix t.expires_at)) ++ sig))))
unfolding payload
payload-append t sig = simp append_assoc

abbrev pub rounded : Token → Token
rounded t = record t { expires_at = from_unix (unix t.expires_at) }

pub unmarshal-payload :
    (t : Token) (sig : Bytes)
    → IsToken t
    → length sig ≡ 64
    → unmarshal (payload t ++ sig) ≡ ok (rounded t)
unfolding unmarshal read_tail
unmarshal-payload t sig h e =
    let bs = payload t ++ sig in
    let count = be_bytes 2 (length t.endpoints % 2 ^ 16) in
    let stamp = be_bytes 8 (to_uint64 (unix t.expires_at)) in
    let after_nonce = stamp ++ sig in
    let after_eps = t.nonce ++ after_nonce in
    let (key, d1) =
      cut_lem 32 0 bs t.public_key (count ++ (wire t.endpoints ++ after_eps)) (payload-append t sig)
        h.key_size in
    let (num, d2) =
      cut_lem 2 32 bs count (wire t.endpoints ++ after_eps) d1 (length-be_bytes 2 _) in
    let size : length bs ≡ 34 + length (wire t.endpoints ++ after_eps) =
      ap length (payload-append t sig)
      ∙ omega (
        arith,
        length-append {0} t.public_key (count ++ (wire t.endpoints ++ after_eps)),
        length-append {0} count (wire t.endpoints ++ after_eps),
        length-be_bytes 2 (length t.endpoints % 2 ^ 16),
        h.key_size,
      ) in
    let tail_size : length after_eps ≡ 24 + length sig = omega (
      arith,
      length-append {0} t.nonce after_nonce,
      length-append {0} stamp sig,
      length-be_bytes 8 (to_uint64 (unix t.expires_at)),
      h.nonce_size,
    ) in
    let d3 : drop (34 + length (wire t.endpoints)) bs ≡ after_eps =
      (cut_lem (length (wire t.endpoints)) 34 bs (wire t.endpoints) after_eps d2 refl).1 in
    let (non, d4) =
      cut_lem 16 (34 + length (wire t.endpoints)) bs t.nonce after_nonce d3 h.nonce_size in
    let (exp, d5) =
      cut_lem 8 (34 + length (wire t.endpoints) + 16) bs stamp sig d4 (length-be_bytes 8 _) in
    let loop = read_endpoints_lem t.endpoints bs after_eps 34 [] h.sizes d2 size (omega arith) in
    rw (num, u16_lem (length t.endpoints) h.count, loop, key, non, exp)
      (rw
        (
          be_value-be_bytes 8 (to_uint64 (unix t.expires_at))
              (to_uint64-lt (unix t.expires_at) h.expiry),
          from_uint64-to_uint64 (unix t.expires_at) h.expiry,
        )
        (ground (arith, size, length-append (wire t.endpoints) after_eps, tail_size)))

module _ (c : Crypto) where
  open c use {PrivKey, sign, encode64, decode64-encode64, length-sign}

  -- A token that the format can hold is encoded, and decoding gives the same token with its expiry
  -- rounded down to the second: key, endpoints and nonce are kept exactly.
  pub decode-encode :
      (t : Token) (k : PrivKey)
      → IsToken t
      → (raw : Bytes) × (encode c t k ≡ ok raw)
        × (decode c raw ≡ ok (record t { expires_at = from_unix (unix t.expires_at) }))
  unfolding encode decode eqb
  decode-encode t k h = (
    prefix ++ encode64 (payload t ++ sign k (payload t)),
    rw (marshal_payload_lem t h),
    rw (decode64-encode64 (payload t ++ sign k (payload t)))
        (unmarshal-payload t (sign k (payload t)) h (length-sign k (payload t))),
  )
