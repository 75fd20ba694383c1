-- ===== src/Daemon/Presence/Tests.antt =====
-- A relay that is lost again and again, and the theorem at concrete inputs.
use kin.Base.{ℕ, ◌≡◌, refl, true, false, [], ◌∷◌, leb, length, if◌then◌else◌}
use kin.Connmgr.{Network, external_port, parse_uint}
use kin.Connmgr.Samples.{network}
use kin.Connmgr.Serve.{
  Surroundings, lost, asked_by, cancelled, serve_punch, serve_turns, prime_nat, prime_burst,
}
use kin.Daemon.Presence.{Backs, relay_loop, relay_turns, ended, relay_loop-Backs}

abbrev net : Network
net = network (λ addr. true)

-- The context is cancelled once so many addresses were tried, and every connection is lost.
abbrev losing : ℕ → Surroundings net
losing limit = record {
  inbound = λ client w. (lost, w);
  is_cancelled = λ w. leb limit (length w);
  sleep = λ ms w. (false, w);
  prime = λ addr w. addr ∷ w;
}

backing_off : (relay_loop net (losing 100) 7 3 (5 ∷ []) []).0 ≡ 1 ∷ 2 ∷ 4 ∷ 8 ∷ 16 ∷ 30 ∷ 30 ∷ []
unfolding relay_loop relay_turns serve_punch serve_turns external_port parse_uint
backing_off = refl

cancelled_run : (relay_loop net (losing 2) 7 3 (5 ∷ []) []).1 ≡ ended
unfolding relay_loop relay_turns serve_punch serve_turns external_port parse_uint
cancelled_run = refl

-- A rendezvous has five datagrams sent.
abbrev visited : Surroundings net
visited = record (losing 100) {
  inbound = λ client w. (if leb 5 (length w) then cancelled else asked_by (8 ∷ []), w);
}

burst : length (serve_punch net visited 3 (5 ∷ []) []).1 ≡ 6
unfolding serve_punch serve_turns prime_nat prime_burst external_port parse_uint
burst = refl

relay_loop-Backs_example : Backs net (losing 100) 0 7 (relay_loop net (losing 100) 7 3 (5 ∷ []) [])
relay_loop-Backs_example = relay_loop-Backs net (losing 100) 7 3 (5 ∷ []) []
