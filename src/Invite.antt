-- ===== src/Invite.antt =====
-- internal/invite/invite.go: one-time invite tokens, their encoding, decoding and validation.
pub mod RoundTrip
pub mod Decoded
pub mod Replay
pub mod Lifetime
pub mod Samples
mod Tests
use kin.Base.{
  ℕ, zero, suc, ◌+◌, ◌-◌, ◌*◌, ◌^◌, ◌%◌, ◌≡◌, Bool, true, false, not, Option, none, some, List, [],
  ◌∷◌, ◌++◌, ltb, ◌==◌, if◌then◌else◌, length, take, drop, Bytes, eqb, Result, ok, err, ◌>>=◌,
}
use kin.Base.BigEndian.{be_bytes, be_value}
use kin.Base.Ints.{pos, leb_ℤ, to_uint64, from_uint64}
use kin.Base.Times.{Time, Duration, unix, from_unix, after, add}

pub data InviteError : Type 0 where
  nonce_generation_failed bad_public_key too_many_endpoints endpoint_too_long : InviteError
  missing_prefix bad_base64 too_short : InviteError
  truncated_endpoint truncated_endpoint_data truncated_nonce truncated_expiry : InviteError
  expired short_for_signature invalid_signature : InviteError
  nonce_check_failed nonce_already_used nonce_save_failed panicked : InviteError

abbrev pub pubkey_size : ℕ
pubkey_size = 32

abbrev pub nonce_size : ℕ
nonce_size = 16

abbrev pub expiry_size : ℕ
expiry_size = 8

abbrev pub sig_size : ℕ
sig_size = 64

-- "kin:"
abbrev pub prefix : Bytes
prefix = b'k' ∷ b'i' ∷ b'n' ∷ b':' ∷ []

pub record Token : Type 0 where
  pub public_key : Bytes
  pub endpoints : List Bytes
  pub nonce : Bytes
  pub expires_at : Time

-- ed25519 and base64, as invite.go uses them.
pub record Crypto : Type 1 where
  pub PrivKey : Type 0
  pub public : PrivKey → Bytes
  pub sign : PrivKey → Bytes → Bytes
  pub verify : Bytes → Bytes → Bytes → Bool
  pub encode64 : Bytes → Bytes
  pub decode64 : Bytes → Option Bytes
  pub length-public : (k : PrivKey) → length (public k) ≡ pubkey_size
  pub length-sign : (k : PrivKey) (m : Bytes) → length (sign k m) ≡ sig_size
  pub verify-sign : (k : PrivKey) (m : Bytes) → verify (public k) m (sign k m) ≡ true
  pub decode64-encode64 : (bs : Bytes) → decode64 (encode64 bs) ≡ some bs

-- `NonceStore`: the calls, and what the package relies on. A saved nonce is found, and saving one
-- changes nothing for the others.
pub record NonceStore : Type 1 where
  pub Store : Type 0
  pub has_nonce : Store → Bytes → Option Bool
  pub save_nonce : Store → Bytes → Option Store
  pub has-save :
      (s t : Store) (n m : Bytes)
      → save_nonce s n ≡ some t
      → has_nonce t m ≡ (if eqb n m then some true else has_nonce s m)

-- `DefaultTTL`, 24 hours.
abbrev pub default_ttl : Duration
default_ttl = pos (24 * 3600 * 1000000000)

-- `Create`; `random` is what `rand.Read` gave, `now` the clock.
unfoldable pub create :
    Bytes → Option Bytes → Time → List Bytes → Duration → Result InviteError Token
create public random now endpoints ttl =
    let ttl' : Duration = if leb_ℤ ttl (pos 0) then default_ttl else ttl in
    elim random [
      | none ↦ err nonce_generation_failed
      | some nonce ↦ ok (record {
        public_key = public;
        endpoints = endpoints;
        nonce = nonce;
        expires_at = add now ttl';
      })
    ]

-- The loop of `marshalPayload` over the endpoints; `buf` is the buffer so far.
unfoldable pub marshal_endpoints : Bytes → List Bytes → Result InviteError Bytes
marshal_endpoints buf [] = ok buf
marshal_endpoints buf (ep ∷ eps) =
    if ltb 0xFFFF (length ep)
    then err endpoint_too_long
    else marshal_endpoints ((buf ++ be_bytes 2 (length ep % 2 ^ 16)) ++ ep) eps

unfoldable pub marshal_payload : Token → Result InviteError Bytes
marshal_payload t =
    if not (length t.public_key == pubkey_size)
    then err bad_public_key
    else if ltb 0xFFFF (length t.endpoints)
    then err too_many_endpoints
    else do
      buf ← marshal_endpoints (t.public_key ++ be_bytes 2 (length t.endpoints % 2 ^ 16)) t.endpoints
      ok ((buf ++ t.nonce) ++ be_bytes 8 (to_uint64 (unix t.expires_at)))

-- `data[i:i+n]`
abbrev pub slice : Bytes → ℕ → ℕ → Bytes
slice bs i n = take n (drop i bs)

-- The loop of `unmarshal`: `n` endpoints are left to read at `offset`, and `acc` has been read.
unfoldable pub read_endpoints : ℕ → Bytes → ℕ → List Bytes → Result InviteError (List Bytes × ℕ)
read_endpoints zero bs offset acc = ok (acc, offset)
read_endpoints (suc n) bs offset acc =
    let limit = length bs - nonce_size - expiry_size - sig_size in
    let ep_len = be_value (slice bs offset 2) in
    let rest =
      read_endpoints n bs (offset + 2 + ep_len) (acc ++ slice bs (offset + 2) ep_len ∷ []) in
    if ltb limit (offset + 2)
    then err truncated_endpoint
    else if ltb limit (offset + 2 + ep_len)
    then err truncated_endpoint_data
    else rest

-- What `unmarshal` does behind the endpoints.
unfoldable pub read_tail : Bytes → Bytes → List Bytes × ℕ → Result InviteError Token
read_tail bs public_key (endpoints, offset) =
    if ltb (length bs - expiry_size - sig_size) (offset + nonce_size)
    then err truncated_nonce
    else if ltb (length bs - sig_size) (offset + nonce_size + expiry_size)
    then err truncated_expiry
    else ok (record {
      public_key = public_key;
      endpoints = endpoints;
      nonce = slice bs offset nonce_size;
      expires_at = from_unix (from_uint64 (be_value (slice bs (offset + nonce_size) expiry_size)));
    })

unfoldable pub unmarshal : Bytes → Result InviteError Token
unmarshal bs =
    if ltb (length bs) (pubkey_size + 2 + nonce_size + expiry_size + sig_size)
    then err too_short
    else do
      read ← read_endpoints (be_value (slice bs pubkey_size 2)) bs (pubkey_size + 2) []
      read_tail bs (slice bs 0 pubkey_size) read

module _ (c : Crypto) where
  open c use {PrivKey, sign, verify, encode64, decode64}

  -- `Encode`
  unfoldable pub encode : Token → PrivKey → Result InviteError Bytes
  encode t k = do payload ← marshal_payload t; ok (prefix ++ encode64 (payload ++ sign k payload))

  -- `Decode`
  unfoldable pub decode : Bytes → Result InviteError Token
  decode raw =
      if not (eqb (take 4 raw) prefix)
      then err missing_prefix
      else elim (decode64 (drop 4 raw)) [ none ↦ err bad_base64 | some bs ↦ unmarshal bs ]

  module _ (ns : NonceStore) where
    open ns use {Store, has_nonce, save_nonce}

    -- The nonce's check and its recording, at the end of `Validate`.
    unfoldable pub use_nonce : Bytes → Store → Result InviteError (Unit {0}) × Store
    use_nonce nonce s = elim (has_nonce s nonce) [
      | none ↦ (err nonce_check_failed, s)
      | some true ↦ (err nonce_already_used, s)
      | some false ↦ elim (save_nonce s nonce) [
        | none ↦ (err nonce_save_failed, s)
        | some s' ↦ (ok tt, s')
      ]
    ]

    unfoldable pub check_signature : Token → Bytes → Store → Result InviteError (Unit {0}) × Store
    unfolding use_nonce
    check_signature t bs s =
        if ltb (length bs) sig_size
        then (err short_for_signature, s)
        else let cut = length bs - sig_size in
          if not (verify t.public_key (take cut bs) (drop cut bs))
          then (err invalid_signature, s)
          else use_nonce t.nonce s

    -- `Validate` at the time `now`. Slicing a `raw` that is shorter than the prefix panics.
    unfoldable pub validate : Time → Token → Bytes → Store → Result InviteError (Unit {0}) × Store
    unfolding check_signature
    validate now t raw s =
        if after now t.expires_at
        then (err expired, s)
        else if ltb (length raw) 4
        then (err panicked, s)
        else elim (decode64 (drop 4 raw)) [
          | none ↦ (err bad_base64, s)
          | some bs ↦ check_signature t bs s
        ]
