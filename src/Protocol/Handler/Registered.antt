-- ===== src/Protocol/Handler/Registered.antt =====
-- Which connections a handler has registered.
use kin.Base.{◌≡◌, refl, ◌∙◌, Option, none, some, List, [], ◌∷◌, Bytes}
use kin.Transfer.{Host}
use kin.Protocol.Handler.{
  CatalogExchanger, Conn, Handler, on_catalog, send_catalog_offer_to, broadcast_loop,
  broadcast_with, broadcast_catalog,
}
use kin.Protocol.Handler.Dispatch.{on_catalog-Leaves, send_catalog_offer_to-Leaves}

module _ (exchanger : CatalogExchanger) (host : Host) (error_text : Bytes) where
  open exchanger use {Catalog}

  -- An offer and a broadcast of the catalog leave the registrations alone.
  pub offer-conns :
      (c : Conn) (h : Handler exchanger host error_text)
      → (on_catalog exchanger host error_text h.catalog
          (λ cat. send_catalog_offer_to exchanger host error_text cat c)
          h).1.conns
        ≡ h.conns
  offer-conns c h =
      (on_catalog-Leaves exchanger host error_text h.catalog _ c.link h
        (λ cat. send_catalog_offer_to-Leaves exchanger host error_text cat c h)).conns

  loop-conns :
      (cat : Catalog) (cs : List Conn) (h : Handler exchanger host error_text)
      → (broadcast_loop exchanger host error_text cat cs h).conns ≡ h.conns
  unfolding broadcast_loop
  loop-conns cat [] h = refl
  loop-conns cat (c ∷ cs) h =
      loop-conns cat cs _ ∙ (send_catalog_offer_to-Leaves exchanger host error_text cat c h).conns

  with-conns :
      (o : Option Catalog) (cs : List Conn) (h : Handler exchanger host error_text)
      → (broadcast_with exchanger host error_text o cs h).conns ≡ h.conns
  with-conns none cs h = refl
  with-conns (some cat) cs h = loop-conns cat cs h

  pub broadcast_catalog-conns :
      (cs : List Conn) (h : Handler exchanger host error_text)
      → (broadcast_catalog exchanger host error_text cs h).conns ≡ h.conns
  unfolding broadcast_catalog
  broadcast_catalog-conns cs h = with-conns h.catalog cs h
