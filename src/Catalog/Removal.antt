-- ===== src/Catalog/Removal.antt =====
-- What goes with a peer that is removed, and what stays.
use kin.Base.{
  ◌≡◌, refl, sym, ap, ◌∙◌, false, Option, none, some, List, [], ◌∷◌, length, Bytes, eqb, ok,
  >>=-eq-ok, ok_injective,
}
use kin.Bolt.{Bolt, Json, or_fail, update-eq-ok}
use kin.Catalog.{
  Entry, OwnerHint, CatalogError, delete_failed, composite_key, Store, read_entry, get_entry,
  remove_peer, remove_peer_tx, remove_loop, list_by_prefix, keep_hints, drop_hints, filter_hints,
  remove_found, remove_availability, forget,
}
use kin.Catalog.Entries.{put_hints-WroteHints}
use kin.Catalog.Peers.{delete_by_prefix_own, delete_by_prefix_foreign}

module _ (bolt : Bolt) (json : Json Entry) (hints_json : Json (List OwnerHint)) where
  open bolt use {get, delete}

  keep_hints_entries :
      (f : Bytes) (hs : List OwnerHint) (s s' : Store bolt json hints_json)
      → keep_hints bolt json hints_json f hs s ≡ ok s'
      → s'.entries ≡ s.entries
  unfolding keep_hints drop_hints
  keep_hints_entries f [] s s' h =
      let (a, e, last) = >>=-eq-ok (or_fail (delete s.availability f) delete_failed) _ h in
      ap (λ (c : Store bolt json hints_json). c.entries)
        (sym (ok_injective {E = CatalogError} refl last))
  keep_hints_entries f (x ∷ hs) s s' h =
      (put_hints-WroteHints bolt json hints_json f (x ∷ hs) s s' h).entries

  filter_hints_entries :
      (f n : Bytes) (o : Option (List OwnerHint)) (s s' : Store bolt json hints_json)
      → filter_hints bolt json hints_json f n o s ≡ ok s'
      → s'.entries ≡ s.entries
  unfolding filter_hints
  filter_hints_entries f n none s s' h = keep_hints_entries f [] s s' (unfold keep_hints in h)
  filter_hints_entries f n (some hs) s s' h = keep_hints_entries f (forget n hs) s s' h

  remove_found_entries :
      (f n : Bytes) (o : Option Bytes) (s s' : Store bolt json hints_json)
      → remove_found bolt json hints_json f n o s ≡ ok s'
      → s'.entries ≡ s.entries
  unfolding remove_found
  remove_found_entries f n none s s' h =
      ap (λ (c : Store bolt json hints_json). c.entries)
        (sym (ok_injective {E = CatalogError} refl h))
  remove_found_entries f n (some raw) s s' h =
      filter_hints_entries f n (hints_json.unmarshal raw) s s' h

  remove_loop_entries :
      (peer : Bytes) (es : List Entry) (s s' : Store bolt json hints_json)
      → remove_loop bolt json hints_json peer es s ≡ ok s'
      → s'.entries ≡ s.entries
  unfolding remove_loop remove_availability
  remove_loop_entries peer [] s s' h =
      ap (λ (c : Store bolt json hints_json). c.entries)
        (sym (ok_injective {E = CatalogError} refl h))
  remove_loop_entries peer (e ∷ es) s s' h =
      let (t, e1, e2) =
        >>=-eq-ok
          (remove_found bolt json hints_json e.file_id peer (get s.availability e.file_id) s) _ h in
      remove_loop_entries peer es t s' e2
      ∙ remove_found_entries e.file_id peer (get s.availability e.file_id) s t e1

  -- After a `RemovePeer` that succeeds the peer has no entry, deleted ones included, and the entries
  -- of every other node are as before.
  pub remove_peer_entries :
      (peer : Bytes) (s s' : Store bolt json hints_json)
      → remove_peer bolt json hints_json peer s ≡ (ok tt, s')
      → ((f : Bytes) → get_entry bolt json hints_json s' peer f ≡ ok none)
        × ((o f : Bytes)
            → length peer ≡ length o
            → eqb peer o ≡ false
            → get_entry bolt json hints_json s' o f ≡ get_entry bolt json hints_json s o f)
  unfolding remove_peer remove_peer_tx get_entry
  remove_peer_entries peer s s' h =
      let (t, e1, e2) =
        >>=-eq-ok
          (remove_loop bolt json hints_json peer (list_by_prefix bolt json hints_json peer s) s) _
          (update-eq-ok s _ h) in
      let same = remove_loop_entries peer (list_by_prefix bolt json hints_json peer s) s t e1 in
      (
        λ f. delete_by_prefix_own bolt json hints_json peer f t s' e2,
        λ o f l ne.
            delete_by_prefix_foreign bolt json hints_json peer o f t s' l ne e2
            ∙ ap (λ b. read_entry bolt json hints_json (get b (composite_key o f))) same,
      )
