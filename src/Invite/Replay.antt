-- ===== src/Invite/Replay.antt =====
-- A token is accepted only in time, with a valid signature, and once.
use mathlib.Core.Path.{subst}
use kin.Base.{
  ℕ, ◌+◌, ◌-◌, ◌≡◌, ◌≢◌, ◌∙◌, refl, ap, inl, inr, true, false, some, List, [], ◌∷◌, ◌++◌, arith,
  ltb, length, take, drop, length-append, take-append, drop-append, Bytes, eqb, eqb_iff, Result, ok,
  err, Bool-cases, Option-cases,
}
use kin.Base.Times.{Time, unix, from_unix, after}
use kin.Invite.{
  InviteError, Token, Crypto, NonceStore, encode, decode, prefix, use_nonce, check_signature,
  validate, sig_size,
}
use kin.Invite.RoundTrip.{IsToken, payload, marshal_payload_lem, rounded, unmarshal-payload}

long_enough : (xs : Bytes) → ltb (length (prefix ++ xs)) 4 ≡ false
long_enough xs = ground arith

module _ (c : Crypto) (ns : NonceStore) where
  open c use {
    PrivKey, public, sign, verify, encode64, decode64, verify-sign, length-sign, decode64-encode64,
  }
  open ns use {Store, has_nonce, save_nonce, has-save}

  -- What a successful validation has checked, and what it has recorded.
  pub record Accepted (now : Time) (t : Token) (raw : Bytes) (s s' : Store) : Type 0 where
    pub in_time : after now t.expires_at ≡ false
    pub signed :
        (bs : Bytes) × (decode64 (drop 4 raw) ≡ some bs)
        × (verify t.public_key (take (length bs - sig_size) bs) (drop (length bs - sig_size) bs)
            ≡ true)
    pub fresh : has_nonce s t.nonce ≡ some false
    pub recorded : has_nonce s' t.nonce ≡ some true
    pub keeps : (n : Bytes) → has_nonce s n ≡ some true → has_nonce s' n ≡ some true

  -- How a call ended: accepted, or refused with the store as it was.
  abbrev pub Outcome : Time → Token → Bytes → Store → Result InviteError (Unit {0}) × Store → Type 0
  Outcome now t raw s (ok _, s') = Accepted now t raw s s'
  Outcome now t raw s (err _, s') = s' ≡ s

  abbrev NonceOutcome : Bytes → Store → Result InviteError (Unit {0}) × Store → Type 0
  NonceOutcome n s (ok _, s') = (has_nonce s n ≡ some false) × (save_nonce s n ≡ some s')
  NonceOutcome n s (err _, s') = s' ≡ s

  use_nonce-NonceOutcome : (n : Bytes) (s : Store) → NonceOutcome n s (use_nonce c ns n s)
  unfolding use_nonce
  use_nonce-NonceOutcome n s = elim (Option-cases (has_nonce s n)) [
    | inl e ↦ rw (e, use_nonce) refl
    | inr (true, e) ↦ rw (e, use_nonce) refl
    | inr (false, e) ↦ elim (Option-cases (save_nonce s n)) [
      | inl e' ↦ rw (e, e', use_nonce) refl
      | inr (s', e') ↦ rw (e, e', use_nonce) (e, e')
    ]
  ]

  -- A nonce that is saved becomes known, and none that was known is forgotten.
  saved_keeps :
      (n m : Bytes) (s s' : Store)
      → save_nonce s n ≡ some s'
      → has_nonce s m ≡ some true
      → has_nonce s' m ≡ some true
  saved_keeps n m s s' saved k = has-save s s' n m saved ∙ ground (arith, k)

  -- The nonce's check, behind the other checks.
  accepted_lem :
      (now : Time) (t : Token) (raw bs : Bytes) (s : Store)
      (out : Result InviteError (Unit {0}) × Store)
      → after now t.expires_at ≡ false
      → decode64 (drop 4 raw) ≡ some bs
      → verify t.public_key (take (length bs - sig_size) bs) (drop (length bs - sig_size) bs) ≡ true
      → NonceOutcome t.nonce s out
      → Outcome now t raw s out
  accepted_lem now t raw bs s (ok u, s') h d v (f, saved) = record {
    in_time = h;
    signed = (bs, d, v);
    fresh = f;
    recorded = has-save s s' t.nonce t.nonce saved ∙ rw ((eqb_iff t.nonce t.nonce).1 refl) refl;
    keeps = λ m k. saved_keeps t.nonce m s s' saved k;
  }
  accepted_lem now t raw bs s (err e, s') h d v out = out

  check_signature-Outcome :
      (now : Time) (t : Token) (raw bs : Bytes) (s : Store)
      → after now t.expires_at ≡ false
      → decode64 (drop 4 raw) ≡ some bs
      → Outcome now t raw s (check_signature c ns t bs s)
  unfolding check_signature
  check_signature-Outcome now t raw bs s h d = elim (Bool-cases (ltb (length bs) sig_size)) [
    | inl short ↦ rw short refl
    | inr long ↦
        elim (Bool-cases
          (verify t.public_key (take (length bs - sig_size) bs) (drop (length bs - sig_size) bs))) [
            | inl v ↦
                rw (long, v)
                  (accepted_lem now t raw bs s (use_nonce c ns t.nonce s) h d v
                    (use_nonce-NonceOutcome t.nonce s))
            | inr v ↦ rw (long, v) refl
          ]
  ]

  -- A validation that succeeds has checked the expiry, the signature and that the nonce was not
  -- known; it has recorded the nonce and forgotten none. A validation that fails leaves the store
  -- as it was.
  pub validate-Outcome :
      (now : Time) (t : Token) (raw : Bytes) (s : Store)
      → Outcome now t raw s (validate c ns now t raw s)
  unfolding validate
  validate-Outcome now t raw s = elim (Bool-cases (after now t.expires_at)) [
    | inl late ↦ rw late refl
    | inr h ↦ elim (Bool-cases (ltb (length raw) 4)) [
      | inl short ↦ rw (h, short) refl
      | inr long ↦ elim (Option-cases (decode64 (drop 4 raw))) [
        | inl d ↦ rw (h, long, d) refl
        | inr (bs, d) ↦ rw (h, long, d) (check_signature-Outcome now t raw bs s h d)
      ]
    ]
  ]

  -- Any number of calls of `Validate`, one after the other on one store.
  pub run : List (Time × Token × Bytes) → Store → Store
  run [] s = s
  run ((now, t, raw) ∷ rest) s = run rest (validate c ns now t raw s).1

  pub Outcome-keeps :
      (now : Time) (t : Token) (raw n : Bytes) (s : Store)
      (out : Result InviteError (Unit {0}) × Store)
      → Outcome now t raw s out
      → has_nonce s n ≡ some true
      → has_nonce out.1 n ≡ some true
  Outcome-keeps now t raw n s (ok u, s') h k = h.keeps n k
  Outcome-keeps now t raw n s (err e, s') h k = rw h k

  run_keeps :
      (calls : List (Time × Token × Bytes)) (n : Bytes) (s : Store)
      → has_nonce s n ≡ some true
      → has_nonce (run calls s) n ≡ some true
  unfolding run
  run_keeps [] n s k = k
  run_keeps ((now, t, raw) ∷ rest) n s k =
      run_keeps rest n (validate c ns now t raw s).1
        (Outcome-keeps now t raw n s (validate c ns now t raw s) (validate-Outcome now t raw s) k)

  pub refused_lem :
      (now : Time) (t : Token) (raw : Bytes) (s : Store)
      (out : Result InviteError (Unit {0}) × Store)
      → Outcome now t raw s out
      → has_nonce s t.nonce ≡ some true
      → out.0 ≢ ok tt
  refused_lem now t raw s (ok u, s') h k e = cc (h.fresh)
  refused_lem now t raw s (err e, s') h k e' = cc

  -- A nonce is accepted at most once: after a validation that succeeded, and any further calls,
  -- every token with the same nonce is refused, whatever its text, signature and time.
  pub validate_once :
      (now later : Time) (t t' : Token) (raw raw' : Bytes) (s s' : Store)
      (calls : List (Time × Token × Bytes))
      → validate c ns now t raw s ≡ (ok tt, s')
      → t'.nonce ≡ t.nonce
      → (validate c ns later t' raw' (run calls s')).0 ≢ ok tt
  validate_once now later t t' raw raw' s s' calls e same =
      let first : Accepted now t raw s s' =
        subst (Outcome now t raw s) e (validate-Outcome now t raw s) in
      refused_lem later t' raw' (run calls s') (validate c ns later t' raw' (run calls s'))
        (validate-Outcome later t' raw' (run calls s'))
        (rw same (run_keeps calls t.nonce s' first.recorded))

  -- A signed message passes the signature's check, and then only the nonce decides.
  validate_signed :
      (t : Token) (m : Bytes) (k : PrivKey) (s s' : Store)
      → t.public_key ≡ public k
      → has_nonce s t.nonce ≡ some false
      → save_nonce s t.nonce ≡ some s'
      → check_signature c ns t (m ++ sign k m) s ≡ (ok tt, s')
  unfolding check_signature use_nonce
  validate_signed t m k s s' key new saved =
      let size : length (m ++ sign k m) ≡ length m + 64 =
        length-append m (sign k m) ∙ ap (λ (n : ℕ). length m + n) (length-sign k m) in
      let cut : length m ≡ length (m ++ sign k m) - sig_size = omega (arith, size) in
      let long : ltb (length (m ++ sign k m)) sig_size ≡ false = ground (arith, size) in
      let signed : verify t.public_key m (sign k m) ≡ true = rw key (verify-sign k m) in
      rw (
        long,
        take-append (length (m ++ sign k m) - sig_size) m (sign k m) cut,
        drop-append (length (m ++ sign k m) - sig_size) m (sign k m) cut,
        signed,
        new,
        saved,
        use_nonce,
      )

  -- A token that `Encode` signed with the inviter's key is decoded and validated, once, up to the
  -- second it expires in: the store then knows its nonce.
  pub validate-encode :
      (now : Time) (t : Token) (k : PrivKey) (s s' : Store)
      → IsToken t
      → t.public_key ≡ public k
      → after now (from_unix (unix t.expires_at)) ≡ false
      → has_nonce s t.nonce ≡ some false
      → save_nonce s t.nonce ≡ some s'
      → (raw : Bytes) × (t' : Token) × (encode c t k ≡ ok raw)
        × (decode c raw ≡ ok t')
        × (validate c ns now t' raw s ≡ (ok tt, s'))
  unfolding encode decode eqb validate check_signature use_nonce
  validate-encode now t k s s' h key time new saved =
      let full = payload t ++ sign k (payload t) in
      (
        prefix ++ encode64 full,
        rounded t,
        rw (marshal_payload_lem t h) refl,
        rw (decode64-encode64 full)
            (unmarshal-payload t (sign k (payload t)) h (length-sign k (payload t))),
        rw (time, long_enough (encode64 full), decode64-encode64 full)
            (validate_signed (rounded t) (payload t) k s s' key new saved),
      )
