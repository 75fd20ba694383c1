-- ===== src/Connmgr/Samples.antt =====
-- A network for runs.
use kin.Base.{Bool, none, some, List, [], ◌∷◌, if◌then◌else◌, Bytes}
use kin.Connmgr.{Network}

-- The world is the list of the addresses that were tried, the last one in front; a connection is
-- made where `works` says so, to the node 9.
abbrev pub network : (Bytes → Bool) → Network
network works = record {
  World = List Bytes;
  Conn = Bytes;
  Client = Bytes;
  peer_node_id = λ conn. 9 ∷ [];
  port = 7;
  direct = λ addr peer w. (if works addr then some addr else none, addr ∷ w);
  discover = λ relay w. (some (b'4' ∷ b'2' ∷ []), w);
  connect = λ relay port w. (some relay, (port ∷ relay) ∷ w);
  rendezvous = λ client peer w. (some client, w);
  punch = λ addr peer w. (if works addr then some addr else none, (b'p' ∷ addr) ∷ w);
  close = λ client w. w;
  split_host_port = λ addr. some ([], addr);
}
