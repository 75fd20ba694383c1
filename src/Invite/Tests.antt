-- ===== src/Invite/Tests.antt =====
-- Cryptography and a nonce store for runs, and the theorems at concrete inputs.
use mathlib.Core.Path.{subst}
use kin.Base.{
  ◌≡◌, ◌≢◌, refl, Bool, true, false, some, List, [], ◌∷◌, ◌++◌, arith, if◌then◌else◌, replicate,
  All, Bytes, eqb, some_injective, ok, err,
}
use kin.Base.Ints.{to_uint64, from_uint64, pos}
use kin.Base.BigEndian.{be_bytes, be_value}
use kin.Base.Times.{unix, from_unix}
use kin.Invite.{
  expired, Token, NonceStore, prefix, encode, decode, validate, marshal_payload, marshal_endpoints,
  unmarshal, read_endpoints, read_tail,
}
use kin.Invite.Samples.{toy}
use kin.Invite.RoundTrip.{IsToken, decode-encode}
use kin.Invite.Decoded.{IsByte, decode-IsToken}
use kin.Invite.Replay.{Outcome, validate-Outcome, run, validate_once}

contains : List Bytes → Bytes → Bool
contains [] m = false
contains (n ∷ s) m = if eqb n m then true else contains s m

has-save_lem :
    (s t : List Bytes) (n m : Bytes)
    → some (n ∷ s) ≡ some t
    → some (contains t m) ≡ (if eqb n m then some true else some (contains s m))
unfolding contains
has-save_lem s t n m e =
    subst (λ t. some (contains t m) ≡ (if eqb n m then some true else some (contains s m)))
      (some_injective e) (ground arith)

abbrev memory : NonceStore
memory = record {
  Store = List Bytes;
  has_nonce = λ s n. some (contains s n);
  save_nonce = λ s n. some (n ∷ s);
  has-save = has-save_lem;
}

abbrev token : Token
token = record {
  public_key = replicate 32 1;
  endpoints = (b'a' ∷ b':' ∷ b'1' ∷ []) ∷ (b'b' ∷ []) ∷ [];
  nonce = replicate 16 7;
  expires_at = pos 5000000000;
}

token-IsToken : IsToken token
unfolding unix
token-IsToken = record {
  key_size = refl;
  count = omega arith;
  sizes = omega arith;
  nonce_size = refl;
  expiry = omega arith;
}

abbrev raw : Bytes
raw =
    prefix
    ++ (((replicate 32 1 ++ (0 ∷ 2 ∷ []))
          ++ (0 ∷ 3 ∷ b'a' ∷ b':' ∷ b'1' ∷ 0 ∷ 1 ∷ b'b' ∷ [])
          ++ replicate 16 7
          ++ (0 ∷ 0 ∷ 0 ∷ 0 ∷ 0 ∷ 0 ∷ 0 ∷ 5 ∷ []))
        ++ replicate 64 5)

encode_run : encode toy token tt ≡ ok raw
unfolding encode marshal_payload marshal_endpoints be_bytes unix to_uint64
encode_run = refl

decode_run : decode toy raw ≡ ok token
unfolding decode eqb unmarshal read_endpoints read_tail be_value unix from_unix from_uint64
decode_run = refl

validate_run : validate toy memory (pos 4999999999) token raw [] ≡ (ok tt, (replicate 16 7) ∷ [])
unfolding validate eqb contains
validate_run = refl

late_run : (validate toy memory (pos 5000000001) token raw []).0 ≡ err expired
unfolding validate
late_run = refl

decode-encode_example :
    (text : Bytes) × (encode toy token tt ≡ ok text)
    × (decode toy text ≡ ok (record token { expires_at = from_unix (unix token.expires_at) }))
decode-encode_example = decode-encode toy token tt token-IsToken

decode-IsToken_example : IsToken token
decode-IsToken_example =
    decode-IsToken toy raw token (λ bs e. subst (All IsByte) (some_injective e) (omega arith))
      decode_run

validate-Outcome_example :
    Outcome toy memory
      (pos 4999999999)
      token
      raw
      []
      (validate toy memory (pos 4999999999) token raw [])
validate-Outcome_example = validate-Outcome toy memory (pos 4999999999) token raw []

validate_once_example :
    (validate toy memory
      (pos 1)
      token
      raw
      (run toy memory ((pos 9000000000, token, raw) ∷ []) (replicate 16 7 ∷ []))).0
    ≢ ok tt
validate_once_example =
    validate_once toy memory (pos 4999999999) (pos 1) token token raw raw [] (replicate 16 7 ∷ [])
      ((pos 9000000000, token, raw) ∷ []) validate_run refl
