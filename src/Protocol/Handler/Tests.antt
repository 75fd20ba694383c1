-- ===== src/Protocol/Handler/Tests.antt =====
-- Two nodes and their catalogs in memory, and the theorems at concrete inputs.
use kin.Base.{ℕ, ◌≡◌, refl, true, false, some, none, List, [], ◌∷◌, ◌++◌, replicate, Bytes, eqb, ok}
use kin.Base.Ints.{pos}
use kin.Base.Times.{Time}
use kin.Bolt.{Json}
use kin.Bolt.Keys.{has_prefix}
use kin.Bolt.Memory.{memory}
use kin.Catalog.{Entry, OwnerHint, Store, put_local, list_for_peer, put_peer_entries}
use kin.Catalog.Convert.{entries_to_proto}
use kin.Catalog.Peers.{Exchanged}
use kin.Messages.{Message, file_request, file_response, catalog_offer, catalog_ack, other}
use kin.Transfer.{Host, Reads, Link, new_local_index, send, is_empty}
use kin.Protocol.Handler.{
  CatalogExchanger, Conn, Handler, send_catalog_offer_to, dispatch, serve, broadcast_loop,
  broadcast_catalog,
}
use kin.Protocol.Handler.Dispatch.{broadcast-offered}
use kin.Protocol.Handler.Exchange.{catalog_exchanger, wired, Node, Accepted, offer-Exchanged}

abbrev id_a : Bytes
id_a = replicate 32 1

abbrev id_b : Bytes
id_b = replicate 32 2

abbrev song : Entry
song = record {
  file_id = replicate 32 7;
  name = b's' ∷ [];
  size = pos 10;
  mod_time = pos 1000000000;
  owner_node_id = id_a;
  local_path = b'p' ∷ [];
  deleted = false;
  updated_at = pos 2;
}

-- A JSON for runs: every text stands for `song`.
abbrev song_json : Json Entry
song_json = record {
  marshal = λ e. some (1 ∷ []);
  unmarshal = λ raw. some song;
  repair = λ e. song;
  unmarshal-marshal = λ e raw h. refl;
}

-- A JSON for runs: every text stands for no owners.
abbrev no_hints_json : Json (List OwnerHint)
no_hints_json = record {
  marshal = λ hs. some (1 ∷ []);
  unmarshal = λ raw. some [];
  repair = λ hs. [];
  unmarshal-marshal = λ hs raw h. refl;
}

abbrev clock : ℕ → Time
clock i = pos i

abbrev host : Host
host = record {
  sha256 = λ bytes. bytes;
  read_file = λ path. none;
  stat = λ path. none;
  open_file = λ path. none;
  dest_path = λ dir id. dir ++ id;
}

abbrev empty_of : Bytes → Store memory song_json no_hints_json
unfolding memory
empty_of id = record { entries = memory.empty; availability = memory.empty; self_id = id }

abbrev catalog_a : Store memory song_json no_hints_json
catalog_a = (put_local memory song_json no_hints_json song clock (empty_of id_a)).1

abbrev catalog_b : Store memory song_json no_hints_json
catalog_b =
    (put_peer_entries memory song_json no_hints_json id_a (wired song ∷ []) clock (empty_of id_b)).1

abbrev node :
    Store memory song_json no_hints_json → Node memory song_json no_hints_json clock host []
node s = record {
  index = new_local_index;
  catalog = some s;
  conns = λ id. none;
  links = λ k. record { sent = []; room = 4 };
  updates = 0;
}

abbrev to_b : Conn
to_b = record { peer_id = id_b; link = 1 }

abbrev from_a : Conn
from_a = record { peer_id = id_a; link = 5 }

listed : list_for_peer memory song_json no_hints_json id_b catalog_a ≡ ok (song ∷ [])
unfolding list_for_peer put_local memory eqb
listed = refl

taken :
    put_peer_entries memory song_json no_hints_json id_a (wired song ∷ []) clock (empty_of id_b)
    ≡ (ok tt, catalog_b)
unfolding put_peer_entries memory has_prefix eqb
taken = refl

offer-Exchanged_example :
    let exchanger = catalog_exchanger memory song_json no_hints_json clock in
    (offer : Message) × ((send_catalog_offer_to exchanger host [] catalog_a to_b
          (node catalog_a)).1.links
        1
      ≡ record { sent = offer ∷ []; room = 3 })
    × ((dispatch exchanger host [] (λ i. false) offer from_a (node (empty_of id_b))).0 ≡ ok tt)
    × Accepted memory song_json no_hints_json clock host [] from_a
        (wired song ∷ [])
        catalog_b
        (node (empty_of id_b))
        (dispatch exchanger host [] (λ i. false) offer from_a (node (empty_of id_b))).1
    × Exchanged memory song_json no_hints_json id_a
        (wired song ∷ [])
        clock
        (empty_of id_b)
        catalog_b
offer-Exchanged_example =
    offer-Exchanged memory song_json no_hints_json clock host [] to_b from_a (song ∷ []) catalog_a
      (empty_of id_b) catalog_b (node catalog_a) (node (empty_of id_b)) 3 3 listed
      ((refl, refl), tt) refl refl taken refl

-- An exchanger with nothing to list, which takes every offer.
abbrev plain : CatalogExchanger
plain = record {
  Catalog = Unit {0};
  list_for_peer = λ id c. some [];
  put_peer_entries = λ id es c. (true, c);
}

abbrev plain_node : Handler plain host []
plain_node = record {
  index = new_local_index;
  catalog = some tt;
  conns = λ id. none;
  links = λ k. record { sent = []; room = 4 };
  updates = 0;
}

-- A peer is offered the catalog, its bad request is answered and its offer is acknowledged.
serve_run :
    ((serve plain host []
        (λ i. false)
        (λ i j. false)
        (other ∷ file_request (replicate 32 9) ∷ catalog_offer [] ∷ [])
        to_b
        plain_node).links
      1).sent
    ≡ catalog_offer [] ∷ file_response (replicate 32 9) (pos 0) true ∷ catalog_ack 0 ∷ []
unfolding serve broadcast_catalog kin.Transfer.handle_request entries_to_proto new_local_index
serve_run = refl

broadcast-offered_example :
    (broadcast_loop plain host [] tt (from_a ∷ to_b ∷ []) plain_node).links 1
    ≡ record { sent = catalog_offer [] ∷ []; room = 3 }
unfolding entries_to_proto
broadcast-offered_example =
    broadcast-offered plain host [] tt (from_a ∷ []) [] to_b [] 3 plain_node refl refl (refl, tt) tt
