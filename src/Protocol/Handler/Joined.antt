-- ===== src/Protocol/Handler/Joined.antt =====
-- A node that serves one whose messages are an offer and the acknowledgement of its own.
use kin.Base.{ℕ, suc, ◌%◌, ◌^◌, ◌≡◌, refl, true, false, some, List, [], ◌∷◌, length, Bytes}
use kin.Catalog.{Entry}
use kin.Catalog.Convert.{CatalogFile, entries_to_proto}
use kin.Messages.{catalog_offer, catalog_ack}
use kin.Transfer.{Host, send}
use kin.Protocol.Handler.{
  CatalogExchanger, Conn, Handler, send_to, send_catalog_offer_to, accept_offer, accepted,
  handle_catalog_offer, dispatch, register_conn, unregister_conn, serve_loop, serve,
}
use kin.Protocol.Handler.Dispatch.{self}

module _ (exchanger : CatalogExchanger) (host : Host) (error_text : Bytes) where
  open exchanger use {Catalog, list_for_peer, put_peer_entries}

  -- Over a connection on which two messages can be sent, the node sends its offer and then says how
  -- much of the other's it has read, and its catalog has stored that.
  pub serve-joined :
      (c : Conn) (es : List Entry) (files : List CatalogFile) (m k : ℕ) (cat cat' : Catalog)
      (h : Handler exchanger host error_text)
      → h.catalog ≡ some cat
      → list_for_peer c.peer_id cat ≡ some es
      → put_peer_entries c.peer_id (accepted files) cat ≡ (true, cat')
      → h.links c.link ≡ record { sent = []; room = suc (suc k) }
      → let h' =
          serve exchanger host error_text
            (λ i. false)
            (λ i j. false)
            (catalog_offer files ∷ catalog_ack m ∷ [])
            c
            h in
        (h'.catalog ≡ some cat')
        × ((h'.links c.link).sent
            ≡ catalog_offer (entries_to_proto es)
              ∷ catalog_ack (length (accepted files) % 2 ^ 32)
              ∷ [])
  unfolding serve serve_loop dispatch handle_catalog_offer accept_offer send_catalog_offer_to
      send_to register_conn unregister_conn send
  serve-joined c es files m k cat cat' h has lists puts l =
      rw (has, lists, l, self c.link, puts) (refl, rw (self c.link) refl)
