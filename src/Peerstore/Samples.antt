-- ===== src/Peerstore/Samples.antt =====
-- A peer, and a JSON of peers, for runs.
use kin.Base.{sym, ap, some_injective, some, [], ◌∷◌}
use kin.Base.Ints.{pos}
use kin.Bolt.{Json}
use kin.Peerstore.{tofu, Peer}

-- One peer may be stored: every text decodes to it.
abbrev pub alice : Peer
alice = record {
  node_id = 1 ∷ [];
  public_key = 5 ∷ [];
  endpoints = (b'a' ∷ []) ∷ [];
  trust_state = tofu;
  last_seen = pos 3;
}

-- A JSON for runs: it keeps a peer's key, and gives each peer the id, texts and times of `alice`.
abbrev pub key_json : Json Peer
key_json = record {
  marshal = λ p. some p.public_key;
  unmarshal = λ raw. some (record alice { public_key = raw });
  repair = λ p. record alice { public_key = p.public_key };
  unmarshal-marshal =
      λ p raw e. ap (λ k. some (record alice { public_key = k })) (sym (some_injective e));
}
