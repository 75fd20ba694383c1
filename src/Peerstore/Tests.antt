-- ===== src/Peerstore/Tests.antt =====
-- The peer store over a bucket in memory, and the theorems at concrete inputs.
use kin.Base.{◌≡◌, refl, true, false, Option, some, [], ◌∷◌, eqb, ok}
use kin.Base.Ints.{pos}
use kin.Bolt.Memory.{memory}
use kin.Peerstore.{
  Peer, contains, merge_endpoints, Store, put_peer, get_peer, list_peers, update_last_seen,
  has_nonce, save_nonce, save_nonce_tx,
}
use kin.Peerstore.Samples.{alice, key_json}
use kin.Peerstore.Expected.{IsExpected, put_peer-IsExpected}
use kin.Peerstore.Pinning.{Wrote, IsPinned, storing, seeing, saving, calls, calls-IsPinned}

abbrev empty : Store memory key_json
unfolding memory
empty = record { peers = memory.empty; nonces = memory.empty }

-- `alice` stored at the time 9.
abbrev stored : Store memory key_json
stored = (put_peer memory key_json alice (pos 9) empty).1

get_peer_run : get_peer memory key_json stored (1 ∷ []) ≡ ok (some alice)
unfolding put_peer get_peer memory eqb
get_peer_run = refl

put_peer_run : put_peer memory key_json alice (pos 9) empty ≡ (ok tt, stored)
unfolding put_peer memory
put_peer_run = refl

-- A duplicate among the incoming endpoints stays.
merge_endpoints_run : merge_endpoints [] ((7 ∷ []) ∷ (7 ∷ []) ∷ []) ≡ (7 ∷ []) ∷ (7 ∷ []) ∷ []
unfolding merge_endpoints contains
merge_endpoints_run = refl

put_peer-IsExpected_example :
    (known : Option Peer) × (m : Peer) × (get_peer memory key_json empty alice.node_id ≡ ok known)
    × IsExpected known alice (pos 9) m
    × Wrote memory key_json alice.node_id m empty stored
put_peer-IsExpected_example =
    put_peer-IsExpected memory key_json alice (pos 9) empty stored put_peer_run

abbrev mallory : Peer
mallory = record alice { public_key = 6 ∷ [] }

calls-IsPinned_example : IsPinned memory key_json (1 ∷ []) (5 ∷ []) (
    calls memory key_json
      (λ p. refl)
      (storing mallory (pos 10) ∷ seeing (1 ∷ []) (pos 11) ∷ saving (3 ∷ []) ∷ [])
      stored)
calls-IsPinned_example =
    calls-IsPinned memory key_json (λ p. refl) (1 ∷ []) (5 ∷ [])
      (storing mallory (pos 10) ∷ seeing (1 ∷ []) (pos 11) ∷ saving (3 ∷ []) ∷ []) stored
      (record { peer = alice; known = get_peer_run; pinned = refl })

-- A nonce that was saved is found, and no other.
save_nonce_run :
    (has_nonce memory key_json (save_nonce memory key_json (7 ∷ []) empty).1 (7 ∷ []) ≡ true)
    × (has_nonce memory key_json (save_nonce memory key_json (7 ∷ []) empty).1 (8 ∷ []) ≡ false)
unfolding has_nonce save_nonce save_nonce_tx memory eqb
save_nonce_run = (refl, refl)

list_peers_run : list_peers memory key_json stored ≡ ok (alice ∷ [])
unfolding list_peers put_peer memory eqb
list_peers_run = refl

update_last_seen_run : (update_last_seen memory key_json (2 ∷ []) (pos 12) stored).0 ≡ ok tt
unfolding update_last_seen put_peer memory eqb
update_last_seen_run = refl
