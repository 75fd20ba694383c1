-- ===== src/Protocol/Handler/Dispatch.antt =====
-- What the handling of a message, a connection and a broadcast change, and what they leave alone.
use kin.Base.{
  ℕ, suc, ◌≡◌, refl, ap, ◌∙◌, inl, inr, Bool, true, false, Option, none, some, List, [], ◌∷◌, ◌++◌,
  ◌==◌, arith, All, length, Bytes, Bool-cases, Result,
}
use kin.Catalog.{Entry}
use kin.Catalog.Convert.{CatalogFile, entries_to_proto}
use kin.Messages.{
  Message, file_request, file_response, file_chunk, catalog_offer, catalog_ack, error_message,
  other,
}
use kin.Transfer.{Host, Link, send}
use kin.Protocol.Handler.{
  CatalogExchanger, HandlerError, Conn, Handler, with_link, send_to, accepted, handle_file_request,
  offer_entries, send_catalog_offer_to, accept_offer, on_catalog, handle_catalog_offer, dispatch,
  broadcast_loop,
}

-- An offer may change the catalog; no other message does.
pub is_offer : Message → Bool
is_offer (catalog_offer files) = true
is_offer (file_request id) = false
is_offer (file_response id size missing) = false
is_offer (file_chunk id bytes eof) = false
is_offer (catalog_ack n) = false
is_offer (error_message code text) = false
is_offer other = false

pub self : (k : ℕ) → (k == k) ≡ true
self k = ground arith

module _ (exchanger : CatalogExchanger) (host : Host) (error_text : Bytes) where
  open exchanger use {Catalog, list_for_peer, put_peer_entries}

  -- From `h` to `h'` nothing but the link `k` has changed, the catalog left aside.
  pub record Leaves (k : ℕ) (h h' : Handler exchanger host error_text) : Type 0 where
    pub conns : h'.conns ≡ h.conns
    pub index : h'.index ≡ h.index
    pub links : (j : ℕ) → (j == k) ≡ false → h'.links j ≡ h.links j

  Leaves-refl : (k : ℕ) (h : Handler exchanger host error_text) → Leaves k h h
  Leaves-refl k h = record { conns = refl; index = refl; links = λ j ne. refl }

  with_link-Leaves :
      (c : Conn) (l : Link) (h : Handler exchanger host error_text)
      → Leaves c.link h (with_link exchanger host error_text c l h)
  with_link-Leaves c l h = record { conns = refl; index = refl; links = λ j ne. rw ne refl }

  send_to-Leaves :
      (c : Conn) (m : Message) (h : Handler exchanger host error_text)
      → Leaves c.link h (send_to exchanger host error_text c m h).1
  unfolding send_to
  send_to-Leaves c m h = with_link-Leaves c (send m (h.links c.link)).1 h

  accept_offer-Leaves :
      (cat : Catalog) (files : List CatalogFile) (c : Conn) (h : Handler exchanger host error_text)
      → Leaves c.link h (accept_offer exchanger host error_text cat files c h).1
  unfolding accept_offer
  accept_offer-Leaves cat files c h =
      elim (Bool-cases (put_peer_entries c.peer_id (accepted files) cat).0) [
        | inl t ↦ rw t (record { conns = refl; index = refl; links = λ j ne. rw ne refl })
        | inr f ↦ rw f (record { conns = refl; index = refl; links = λ j ne. refl })
      ]

  pub on_catalog-Leaves :
      (o : Option Catalog)
      (f : Catalog
        → Handler exchanger host error_text
        → Result HandlerError (Unit {0}) × Handler exchanger host error_text)
      (k : ℕ) (h : Handler exchanger host error_text)
      → ((cat : Catalog) → Leaves k h (f cat h).1)
      → Leaves k h (on_catalog exchanger host error_text o f h).1
  on_catalog-Leaves none f k h each = Leaves-refl k h
  on_catalog-Leaves (some cat) f k h each = each cat

  offer_entries-Leaves :
      (o : Option (List Entry)) (c : Conn) (h : Handler exchanger host error_text)
      → Leaves c.link h (offer_entries exchanger host error_text o c h).1
  offer_entries-Leaves none c h = Leaves-refl c.link h
  offer_entries-Leaves (some es) c h = send_to-Leaves c _ h

  pub send_catalog_offer_to-Leaves :
      (cat : Catalog) (c : Conn) (h : Handler exchanger host error_text)
      → Leaves c.link h (send_catalog_offer_to exchanger host error_text cat c h).1
  unfolding send_catalog_offer_to
  send_catalog_offer_to-Leaves cat c h = offer_entries-Leaves (list_for_peer c.peer_id cat) c h

  handle_file_request-Leaves :
      (cancelled : ℕ → Bool) (id : Bytes) (c : Conn) (h : Handler exchanger host error_text)
      → Leaves c.link h (handle_file_request exchanger host error_text cancelled id c h).1
  unfolding handle_file_request
  handle_file_request-Leaves cancelled id c h = elim (Bool-cases (length id == 32)) [
    | inl t ↦ rw t (with_link-Leaves c _ h)
    | inr f ↦ rw f (send_to-Leaves c _ h)
  ]

  -- No message of a peer reaches the link of another one, the registrations or the index of files.
  pub dispatch-Leaves :
      (cancelled : ℕ → Bool) (m : Message) (c : Conn) (h : Handler exchanger host error_text)
      → Leaves c.link h (dispatch exchanger host error_text cancelled m c h).1
  unfolding dispatch handle_catalog_offer
  dispatch-Leaves cancelled (file_request id) c h = handle_file_request-Leaves cancelled id c h
  dispatch-Leaves cancelled (catalog_offer files) c h =
      on_catalog-Leaves h.catalog _ c.link h (λ cat. accept_offer-Leaves cat files c h)
  dispatch-Leaves cancelled (catalog_ack n) c h = Leaves-refl c.link h
  dispatch-Leaves cancelled (file_response id size missing) c h = Leaves-refl c.link h
  dispatch-Leaves cancelled (file_chunk id bytes eof) c h = Leaves-refl c.link h
  dispatch-Leaves cancelled (error_message code text) c h = Leaves-refl c.link h
  dispatch-Leaves cancelled other c h = Leaves-refl c.link h

  -- A link that no visited connection has is not written to.
  broadcast_elsewhere :
      (cat : Catalog) (cs : List Conn) (j : ℕ) (h : Handler exchanger host error_text)
      → All (λ d. (j == d.link) ≡ false) cs
      → (broadcast_loop exchanger host error_text cat cs h).links j ≡ h.links j
  unfolding broadcast_loop
  broadcast_elsewhere cat [] j h a = refl
  broadcast_elsewhere cat (d ∷ cs) j h a =
      broadcast_elsewhere cat cs j (send_catalog_offer_to exchanger host error_text cat d h).1 a.1
      ∙ (send_catalog_offer_to-Leaves cat d h).links j a.0

  broadcast-append :
      (cat : Catalog) (cs ds : List Conn) (h : Handler exchanger host error_text)
      → broadcast_loop exchanger host error_text cat (cs ++ ds) h
        ≡ broadcast_loop exchanger host error_text cat ds
            (broadcast_loop exchanger host error_text cat cs h)
  unfolding broadcast_loop
  broadcast-append cat [] ds h = refl
  broadcast-append cat (c ∷ cs) ds h =
      broadcast-append cat cs ds (send_catalog_offer_to exchanger host error_text cat c h).1

  pub offered :
      (cat : Catalog) (c : Conn) (es : List Entry) (n : ℕ) (h : Handler exchanger host error_text)
      → list_for_peer c.peer_id cat ≡ some es
      → (h.links c.link).room ≡ suc n
      → (send_catalog_offer_to exchanger host error_text cat c h).1.links c.link ≡ record {
        sent = (h.links c.link).sent ++ catalog_offer (entries_to_proto es) ∷ [];
        room = n;
      }
  unfolding send_catalog_offer_to send_to send
  offered cat c es n h l r = rw l (rw (self c.link, r) refl)

  -- A broadcast sends every visited connection that works the catalog for its peer, once, whatever
  -- has become of the connections before and behind it.
  pub broadcast-offered :
      (cat : Catalog) (before after : List Conn) (c : Conn) (es : List Entry) (n : ℕ)
      (h : Handler exchanger host error_text)
      → list_for_peer c.peer_id cat ≡ some es
      → (h.links c.link).room ≡ suc n
      → All (λ d. (c.link == d.link) ≡ false) before
      → All (λ d. (c.link == d.link) ≡ false) after
      → (broadcast_loop exchanger host error_text cat (before ++ c ∷ after) h).links c.link
        ≡ record {
          sent = (h.links c.link).sent ++ catalog_offer (entries_to_proto es) ∷ [];
          room = n;
        }
  unfolding broadcast_loop
  broadcast-offered cat before after c es n h l r b a =
      let h' = broadcast_loop exchanger host error_text cat before h in
      let same : h'.links c.link ≡ h.links c.link = broadcast_elsewhere cat before c.link h b in
      ap (λ (g : Handler exchanger host error_text). g.links c.link)
        (broadcast-append cat before (c ∷ after) h)
      ∙ broadcast_elsewhere cat after c.link
          (send_catalog_offer_to exchanger host error_text cat c h').1 a
      ∙ offered cat c es n h' l (rw same r)
      ∙ rw same refl
