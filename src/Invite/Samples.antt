-- ===== src/Invite/Samples.antt =====
-- Cryptography for runs.
use kin.Base.{refl, some, replicate, eqb, eqb_iff}
use kin.Invite.{Crypto}

-- Every key signs with 64 fives; base64 is the identity.
abbrev pub toy : Crypto
toy = record {
  PrivKey = Unit {0};
  public = λ k. replicate 32 1;
  sign = λ k m. replicate 64 5;
  verify = λ key m sig. eqb sig (replicate 64 5);
  encode64 = λ bs. bs;
  decode64 = some;
  length-public = λ k. refl;
  length-sign = λ k m. refl;
  verify-sign = λ k m. (eqb_iff (replicate 64 5) (replicate 64 5)).1 refl;
  decode64-encode64 = λ bs. refl;
}
