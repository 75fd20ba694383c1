-- ===== src/Cli/Tests.antt =====
-- Two nodes with catalogs that are lists, and the theorem at concrete inputs.
use kin.Base.{
  ◌%◌, ◌^◌, ◌≡◌, refl, true, false, none, some, List, [], ◌∷◌, ◌++◌, length, replicate, eqb,
}
use kin.Base.Ints.{pos}
use kin.Catalog.{Entry}
use kin.Catalog.Convert.{entries_to_proto}
use kin.Messages.{catalog_offer, catalog_ack, other}
use kin.Transfer.{Host, new_local_index}
use kin.Protocol.Handler.{CatalogExchanger, Conn, Handler, accepted, serve}
use kin.Cli.{direct_endpoints, receive_peer_catalog, exchange_catalog}
use kin.Cli.Exchange.{exchange_catalog-serve}

abbrev listed : CatalogExchanger
listed = record {
  Catalog = List Entry;
  list_for_peer = λ id cat. some cat;
  put_peer_entries = λ id es cat. (true, cat ++ es);
}

abbrev host : Host
host = record {
  sha256 = λ bytes. bytes;
  read_file = λ path. none;
  stat = λ path. none;
  open_file = λ path. none;
  dest_path = λ dir id. dir ++ id;
}

abbrev song : Entry
song = record {
  file_id = replicate 32 7;
  name = b's' ∷ [];
  size = pos 10;
  mod_time = pos 1000000000;
  owner_node_id = replicate 32 1;
  local_path = b'p' ∷ [];
  deleted = false;
  updated_at = pos 2;
}

abbrev serving : Handler listed host []
serving = record {
  index = new_local_index;
  catalog = some (song ∷ []);
  conns = λ id. none;
  links = λ k. record { sent = []; room = 2 };
  updates = 0;
}

abbrev joiner : Conn
joiner = record { peer_id = 1 ∷ []; link = 1 }

-- A node that listens everywhere is reached by its relay only.
everywhere :
    direct_endpoints some (b':' ∷ b':' ∷ []) (b'r' ∷ [])
    ≡ (b'r' ∷ b'e' ∷ b'l' ∷ b'a' ∷ b'y' ∷ b':' ∷ b'/' ∷ b'/' ∷ b'r' ∷ []) ∷ []
unfolding direct_endpoints eqb
everywhere = refl

-- A message of another kind ends the waiting for the offer.
stopped :
    receive_peer_catalog listed
      (λ i. false)
      0
      (catalog_ack 1 ∷ other ∷ catalog_offer [] ∷ [])
      []
      []
      (record { sent = []; room = 2 })
    ≡ ([], record { sent = []; room = 2 })
unfolding receive_peer_catalog
stopped = refl

put_none :
    listed.put_peer_entries (1 ∷ []) (accepted (entries_to_proto [])) (song ∷ [])
    ≡ (true, song ∷ [])
unfolding accepted entries_to_proto
put_none = refl

exchange_catalog-serve_example :
    let ack = length (accepted (entries_to_proto (song ∷ []))) % 2 ^ 32 in
    let h' =
      serve listed host []
        (λ i. false)
        (λ i j. false)
        (catalog_offer (entries_to_proto []) ∷ catalog_ack ack ∷ [])
        joiner
        serving in
    (exchange_catalog listed
        (λ i. false)
        (h'.links 1).sent
        (2 ∷ [])
        []
        (record { sent = []; room = 2 })
      ≡ (
        accepted (entries_to_proto (song ∷ [])),
        record { sent = catalog_offer (entries_to_proto []) ∷ catalog_ack ack ∷ []; room = 0 },
      ))
    × (h'.catalog ≡ some (song ∷ []))
    × ((h'.links 1).sent
        ≡ catalog_offer (entries_to_proto (song ∷ []))
          ∷ catalog_ack (length (accepted (entries_to_proto [])) % 2 ^ 32)
          ∷ [])
exchange_catalog-serve_example =
    exchange_catalog-serve listed host [] joiner (2 ∷ []) [] (song ∷ []) 0 0 []
      (accepted (entries_to_proto (song ∷ []))) (song ∷ []) (song ∷ []) [] serving refl refl refl
      put_none refl refl
