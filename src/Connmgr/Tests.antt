-- ===== src/Connmgr/Tests.antt =====
-- Attempts at three endpoints, and the theorem at a concrete input.
use kin.Base.{◌≡◌, refl, false, List, [], ◌∷◌, Bytes, eqb, err}
use kin.Connmgr.{
  no_route, split_from, split_endpoints, parse_digits, parse_uint, external_port, punch_at,
  punch_with, punch_via_relay, try_from, try_each, dial,
}
use kin.Connmgr.Samples.{network}
use kin.Connmgr.Order.{plan, first_success, dial-first_success}

abbrev endpoints : List Bytes
endpoints =
    (b'a' ∷ [])
    ∷ (b'r' ∷ b'e' ∷ b'l' ∷ b'a' ∷ b'y' ∷ b':' ∷ b'/' ∷ b'/' ∷ b'x' ∷ [])
    ∷ (b'b' ∷ [])
    ∷ []

-- The relay comes last, and is told the port that was found.
dial_run :
    dial (network (λ addr. false)) (1 ∷ []) endpoints []
    ≡ (err no_route, (b'p' ∷ b'x' ∷ []) ∷ (42 ∷ b'x' ∷ []) ∷ (b'b' ∷ []) ∷ (b'a' ∷ []) ∷ [])
unfolding dial split_endpoints split_from try_each try_from punch_via_relay punch_with punch_at
    external_port parse_uint parse_digits eqb
dial_run = refl

dial-first_success_example :
    dial (network (λ addr. false)) (1 ∷ []) endpoints []
    ≡ first_success (network (λ addr. false)) (1 ∷ []) (plan endpoints) []
dial-first_success_example = dial-first_success (network (λ addr. false)) (1 ∷ []) endpoints []
