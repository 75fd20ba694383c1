-- ===== src/Protocol/Handler/Exchange.antt =====
-- A catalog offer from the node that sends it to the node that stores it.
use kin.Base.{
  ℕ, suc, ◌%◌, ◌^◌, ◌≡◌, refl, ap, ◌∙◌, false, Option, none, some, List, [], ◌∷◌, ◌++◌, All, length,
  map, Bytes, Result, ok, err,
}
use kin.Base.Times.{Time, unix, from_unix}
use kin.Bolt.{Bolt, Json}
use kin.Catalog.{Entry, OwnerHint, CatalogError, Store, succeeded, list_for_peer, put_peer_entries}
use kin.Catalog.Convert.{CatalogFile, zero_time, entries_to_proto, proto_to_entry-entry_to_proto}
use kin.Catalog.Peers.{Exchanged, put_peer_entries-Exchanged}
use kin.Messages.{Message, catalog_offer, catalog_ack}
use kin.Transfer.{Host, send}
use kin.Protocol.Handler.{
  CatalogExchanger, Conn, Handler, send_to, send_catalog_offer_to, accept_offer, accepted,
  with_entry, handle_catalog_offer, dispatch,
}
use kin.Protocol.Handler.Dispatch.{self, offered}

abbrev pub found : Result CatalogError (List Entry) → Option (List Entry)
found (ok es) = some es
found (err e) = none

-- The catalog's store as the handler uses it, at the clock's readings `now`.
abbrev pub catalog_exchanger :
    (bolt : Bolt) → Json Entry → Json (List OwnerHint) → (ℕ → Time) → CatalogExchanger
catalog_exchanger bolt json hints_json now = record {
  Catalog = Store bolt json hints_json;
  list_for_peer = λ id s. found (list_for_peer bolt json hints_json id s);
  put_peer_entries = λ id es s. succeeded (put_peer_entries bolt json hints_json id es now s);
}

-- An entry as the other side of a connection reads it.
abbrev pub wired : Entry → Entry
wired e = record e {
  mod_time = from_unix (unix e.mod_time);
  local_path = [];
  updated_at = zero_time;
}

-- The ids of an entry have 32 bytes each.
abbrev pub IsWirable : Entry → Type 0
IsWirable e = (length e.file_id ≡ 32) × (length e.owner_node_id ≡ 32)

-- Every entry of an offer arrives, in the same order.
accepted-entries_to_proto :
    (es : List Entry) → All IsWirable es → accepted (entries_to_proto es) ≡ map wired es
unfolding accepted entries_to_proto
accepted-entries_to_proto [] h = refl
accepted-entries_to_proto (e ∷ es) h =
    ap (λ r. with_entry r (accepted (entries_to_proto es)))
      (proto_to_entry-entry_to_proto e h.0.0 h.0.1)
    ∙ ap (λ l. wired e ∷ l) (accepted-entries_to_proto es h.1)

module _ (bolt : Bolt) (json : Json Entry) (hints_json : Json (List OwnerHint)) where
  -- A handler over the catalog's store.
  abbrev pub Node : (ℕ → Time) → Host → Bytes → Type 0
  Node now host error_text = Handler (catalog_exchanger bolt json hints_json now) host error_text

  -- What an offer that was stored leaves at the node that was sent it.
  pub record Accepted (now : ℕ → Time) (host : Host) (error_text : Bytes) (from_a : Conn)
      (es : List Entry) (s' : Store bolt json hints_json) (b b' : Node now host error_text)
      : Type 0 where
    pub stored : b'.catalog ≡ some s'
    pub announced : b'.updates ≡ suc b.updates
    pub acknowledged :
        (b'.links from_a.link).sent
        ≡ (b.links from_a.link).sent ++ catalog_ack (length es % 2 ^ 32) ∷ []

  accept_offer-Accepted :
      (now : ℕ → Time) (host : Host) (error_text : Bytes) (from_a : Conn) (es : List Entry)
      (files : List CatalogFile) (s s' : Store bolt json hints_json) (b : Node now host error_text)
      (k : ℕ)
      → accepted files ≡ es
      → b.catalog ≡ some s
      → put_peer_entries bolt json hints_json from_a.peer_id es now s ≡ (ok tt, s')
      → (b.links from_a.link).room ≡ suc k
      → let (r, b') =
          dispatch
            (catalog_exchanger bolt json hints_json now)
            host
            error_text
            (λ i. false)
            (catalog_offer files)
            from_a
            b in
        (r ≡ ok tt) × Accepted now host error_text from_a es s' b b'
  unfolding dispatch handle_catalog_offer accept_offer send_to send
  accept_offer-Accepted now host error_text from_a es files s s' b k read c p r =
      rw (c, accept_offer, read, p, send_to, send, r)
        (
          refl,
          record {
            stored = refl;
            announced = refl;
            acknowledged = rw (self from_a.link, read) refl;
          },
        )

  -- A node A offers its catalog to a node B over connections that work, and B's store takes it. A's
  -- offer lists what its catalog has for B. B answers that it has read every entry, announces the
  -- change, and its catalog is changed as by `PutPeerEntries` of those entries under A's id: as
  -- they were sent, but for the fractions of a second, the local path and the date.
  pub offer-Exchanged :
      (now : ℕ → Time) (host : Host) (error_text : Bytes) (to_b from_a : Conn) (es : List Entry)
      (cat s s' : Store bolt json hints_json) (a b : Node now host error_text) (n k : ℕ)
      → list_for_peer bolt json hints_json to_b.peer_id cat ≡ ok es
      → All IsWirable es
      → (a.links to_b.link).room ≡ suc n
      → b.catalog ≡ some s
      → put_peer_entries bolt json hints_json from_a.peer_id (map wired es) now s ≡ (ok tt, s')
      → (b.links from_a.link).room ≡ suc k
      → let exchanger = catalog_exchanger bolt json hints_json now in
        (offer : Message) × ((send_catalog_offer_to exchanger host error_text cat to_b a).1.links
            to_b.link
          ≡ record { sent = (a.links to_b.link).sent ++ offer ∷ []; room = n })
        × ((dispatch exchanger host error_text (λ i. false) offer from_a b).0 ≡ ok tt)
        × Accepted now host error_text from_a
            (map wired es)
            s'
            b
            (dispatch exchanger host error_text (λ i. false) offer from_a b).1
        × Exchanged bolt json hints_json from_a.peer_id (map wired es) now s s'
  offer-Exchanged now host error_text to_b from_a es cat s s' a b n k l w ra c p rb =
      let files = entries_to_proto es in
      let exchanger = catalog_exchanger bolt json hints_json now in
      let (done, taken) =
        accept_offer-Accepted now host error_text from_a (map wired es) files s s' b k
          (accepted-entries_to_proto es w) c p rb in
      (
        catalog_offer files,
        offered exchanger host error_text cat to_b es n a (ap found l) ra,
        done,
        taken,
        put_peer_entries-Exchanged bolt json hints_json from_a.peer_id (map wired es) now s s' p,
      )
