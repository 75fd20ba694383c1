-- ===== src/Cli/Exchange.antt =====
-- The catalogs of a node that joins by the command, and of the node that serves it.
use kin.Base.{
  ℕ, suc, ◌%◌, ◌^◌, ◌≡◌, ap, true, false, some, List, [], ◌∷◌, ◌++◌, append_assoc, length, Bytes,
}
use kin.Catalog.{Entry}
use kin.Catalog.Convert.{entries_to_proto}
use kin.Messages.{Message, catalog_offer, catalog_ack}
use kin.Transfer.{Host, Link, send}
use kin.Protocol.Handler.{CatalogExchanger, Conn, Handler, accepted, serve}
use kin.Protocol.Handler.Joined.{serve-joined}
use kin.Cli.{send_catalog_offer, handle_received_offer, receive_peer_catalog, exchange_catalog}

module _ (exchanger : CatalogExchanger) (host : Host) (error_text : Bytes) where
  open exchanger use {Catalog, list_for_peer, put_peer_entries}

  -- A node that runs the join command and one that serves its connection, over links that carry two
  -- messages each way, on which the serving node has sent nothing yet, with no context cancelled,
  -- where the catalog of each of the two can be listed and takes the entries. The command's messages are
  -- its offer and an acknowledgement, and the serving node's are so too: each offer lists what its
  -- node has for the other one, and each acknowledgement is of all entries of the other's offer that
  -- could be read. Behind that, each of the nodes has put those entries into its catalog, under the
  -- other's id.
  pub exchange_catalog-serve :
      (c : Conn) (peer : Bytes) (mine theirs : List Entry) (n k : ℕ)
      (cat cat' their_cat their_cat' : Catalog) (sent : List Message)
      (h : Handler exchanger host error_text)
      → list_for_peer peer cat ≡ some mine
      → h.catalog ≡ some their_cat
      → list_for_peer c.peer_id their_cat ≡ some theirs
      → put_peer_entries c.peer_id (accepted (entries_to_proto mine)) their_cat ≡ (true, their_cat')
      → put_peer_entries peer (accepted (entries_to_proto theirs)) cat ≡ (true, cat')
      → h.links c.link ≡ record { sent = []; room = suc (suc k) }
      → let ack = length (accepted (entries_to_proto theirs)) % 2 ^ 32 in
        let h' =
          serve exchanger host error_text
            (λ i. false)
            (λ i j. false)
            (catalog_offer (entries_to_proto mine) ∷ catalog_ack ack ∷ [])
            c
            h in
        (exchange_catalog exchanger
            (λ i. false)
            (h'.links c.link).sent
            peer
            cat
            (record { sent = sent; room = suc (suc n) })
          ≡ (
            cat',
            record {
              sent = sent ++ catalog_offer (entries_to_proto mine) ∷ catalog_ack ack ∷ [];
              room = n;
            },
          ))
        × (h'.catalog ≡ some their_cat')
        × ((h'.links c.link).sent
            ≡ catalog_offer (entries_to_proto theirs)
              ∷ catalog_ack (length (accepted (entries_to_proto mine)) % 2 ^ 32)
              ∷ [])
  unfolding exchange_catalog send_catalog_offer receive_peer_catalog handle_received_offer send
  exchange_catalog-serve c peer mine theirs n k cat cat' their_cat their_cat' sent h lists has
        lists' puts own l =
      let ack = length (accepted (entries_to_proto theirs)) % 2 ^ 32 in
      let (stored, said) =
        serve-joined exchanger host error_text c theirs (entries_to_proto mine) ack k their_cat
          their_cat' h has lists' puts l in
      (
        rw (said, lists, own)
            (ap {B = Catalog × Link} (λ ms. (cat', record { sent = ms; room = n }))
              (append_assoc sent (catalog_offer (entries_to_proto mine) ∷ [])
                (catalog_ack ack ∷ []))),
        stored,
        said,
      )
