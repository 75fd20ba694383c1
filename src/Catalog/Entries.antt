-- ===== src/Catalog/Entries.antt =====
-- What one write to each bucket of the catalog changes.
use mathlib.Core.Path.{subst}
use kin.Base.{
  ℕ, ◌≡◌, refl, ap, ◌∙◌, inl, inr, false, Option, none, some, List, if◌then◌else◌, Bytes, eqb,
  Bool-cases, Result, ok, >>=-eq-ok, ok_injective,
}
use kin.Base.Times.{Time}
use kin.Bolt.{Bolt, Json, or_fail, or_fail-eq-ok, update-eq-ok}
use kin.Catalog.{
  Entry, OwnerHint, CatalogError, marshal_failed, put_failed, composite_key, see, Store, put_entry,
  or_empty, corrupt_hints, old_hints, put_hints, add_availability, put_local_tx, put_local,
  read_hints, get_owners, read_entry,
}

or_empty_lem :
    (u : Option (List OwnerHint)) (hs : List OwnerHint)
    → or_fail {E = CatalogError} u corrupt_hints ≡ ok hs
    → or_empty u ≡ hs
or_empty_lem none hs h = cc
or_empty_lem (some hs') hs h = cc

module _ (bolt : Bolt) (json : Json Entry) (hints_json : Json (List OwnerHint)) where
  open bolt use {Bucket, get, put, get-put}
  open json use {marshal, unmarshal, repair, unmarshal-marshal}

  -- What is read under a key of 64 bytes.
  abbrev pub entry_at : Store bolt json hints_json → Bytes → Result CatalogError (Option Entry)
  entry_at s k = read_entry bolt json hints_json (get s.entries k)

  -- From `s` to `s'` the entry `e` was written, and nothing else.
  pub record WroteEntry (e : Entry) (s s' : Store bolt json hints_json) : Type 0 where
    pub found :
        (k : Bytes)
        → entry_at s' k ≡ (
            if eqb (composite_key e.owner_node_id e.file_id) k
            then ok (some (repair e))
            else entry_at s k)
    pub availability : s'.availability ≡ s.availability
    pub self_id : s'.self_id ≡ s.self_id

  read_back :
      (k j raw : Bytes) (e : Entry) (o : Option Bytes)
      → marshal e ≡ some raw
      → read_entry bolt json hints_json (if eqb k j then some raw else o)
        ≡ (if eqb k j then ok (some (repair e)) else read_entry bolt json hints_json o)
  read_back k j raw e o m = elim (Bool-cases (eqb k j)) [
    | inl t ↦ rw t (rw (unmarshal-marshal e raw m, read_entry) refl)
    | inr f ↦ rw f refl
  ]

  pub put_entry-WroteEntry :
      (e : Entry) (s s' : Store bolt json hints_json)
      → put_entry bolt json hints_json e s ≡ ok s'
      → WroteEntry e s s'
  unfolding put_entry
  put_entry-WroteEntry e s s' h =
      let key = composite_key e.owner_node_id e.file_id in
      let (raw, e1, rest) = >>=-eq-ok (or_fail (marshal e) marshal_failed) _ h in
      let (entries, e2, last) = >>=-eq-ok (or_fail (put s.entries key raw) put_failed) _ rest in
      subst (WroteEntry e s) (ok_injective refl last) (record {
        found = λ k.
            ap (read_entry bolt json hints_json)
              (get-put s.entries entries key raw k (or_fail-eq-ok _ put_failed e2))
            ∙ read_back key k raw e (get s.entries k) (or_fail-eq-ok (marshal e) marshal_failed e1);
        availability = refl;
        self_id = refl;
      })

  -- From `s` to `s'` the hints under one file were written, and nothing else.
  pub record WroteHints (file_id : Bytes) (hs : List OwnerHint) (s s' : Store bolt json hints_json)
      : Type 0 where
    pub found :
        (k : Bytes)
        → get_owners bolt json hints_json s' k ≡ (
            if eqb file_id k
            then ok (hints_json.repair hs)
            else get_owners bolt json hints_json s k)
    pub entries : s'.entries ≡ s.entries
    pub self_id : s'.self_id ≡ s.self_id

  read_back_hints :
      (k j raw : Bytes) (hs : List OwnerHint) (o : Option Bytes)
      → hints_json.marshal hs ≡ some raw
      → read_hints bolt json hints_json (if eqb k j then some raw else o)
        ≡ (if eqb k j then ok (hints_json.repair hs) else read_hints bolt json hints_json o)
  read_back_hints k j raw hs o m = elim (Bool-cases (eqb k j)) [
    | inl t ↦ rw t (rw (hints_json.unmarshal-marshal hs raw m, read_hints) refl)
    | inr f ↦ rw f refl
  ]

  pub put_hints-WroteHints :
      (file_id : Bytes) (hs : List OwnerHint) (s s' : Store bolt json hints_json)
      → put_hints bolt json hints_json file_id hs s ≡ ok s'
      → WroteHints file_id hs s s'
  unfolding put_hints get_owners
  put_hints-WroteHints file_id hs s s' h =
      let (raw, e1, rest) = >>=-eq-ok (or_fail (hints_json.marshal hs) marshal_failed) _ h in
      let (availability, e2, last) =
        >>=-eq-ok (or_fail (put s.availability file_id raw) put_failed) _ rest in
      subst (WroteHints file_id hs s) (ok_injective refl last) (record {
        found = λ k.
            ap (read_hints bolt json hints_json)
              (get-put s.availability availability file_id raw k (or_fail-eq-ok _ put_failed e2))
            ∙ read_back_hints file_id k raw hs (get s.availability k)
                (or_fail-eq-ok (hints_json.marshal hs) marshal_failed e1);
        entries = refl;
        self_id = refl;
      })

  old_hints_lem :
      (o : Option Bytes) (hs : List OwnerHint)
      → read_hints bolt json hints_json o ≡ ok hs
      → old_hints bolt json hints_json o ≡ hs
  old_hints_lem none hs h = ok_injective {E = CatalogError} refl h
  old_hints_lem (some raw) hs h = or_empty_lem (hints_json.unmarshal raw) hs h

  -- `addAvailability` records the node among the owners that were known.
  pub add_availability-WroteHints :
      (file_id node_id : Bytes) (now : Time) (hs : List OwnerHint)
      (s s' : Store bolt json hints_json)
      → get_owners bolt json hints_json s file_id ≡ ok hs
      → add_availability bolt json hints_json file_id node_id now s ≡ ok s'
      → WroteHints file_id (see node_id now hs) s s'
  unfolding add_availability get_owners
  add_availability-WroteHints file_id node_id now hs s s' o h =
      put_hints-WroteHints file_id (see node_id now hs) s s'
        (rw (old_hints_lem (get s.availability file_id) hs o) at h)

  -- A `PutLocal` that succeeds stores the entry under this node's id, dated and not deleted, and
  -- records this node among the owners of its file; every other entry, and the owners of every
  -- other file, are as before.
  pub put_local-Wrote :
      (entry : Entry) (now : ℕ → Time) (hs : List OwnerHint) (s s' : Store bolt json hints_json)
      → get_owners bolt json hints_json s entry.file_id ≡ ok hs
      → put_local bolt json hints_json entry now s ≡ (ok tt, s')
      → ((k : Bytes)
          → entry_at s' k ≡ (
              if eqb (composite_key s.self_id entry.file_id) k
              then ok (
                  some (
                    repair (record entry {
                      owner_node_id = s.self_id;
                      updated_at = now 0;
                      deleted = false;
                    })))
              else entry_at s k))
        × ((f : Bytes)
            → get_owners bolt json hints_json s' f ≡ (
                if eqb entry.file_id f
                then ok (hints_json.repair (see s.self_id (now 1) hs))
                else get_owners bolt json hints_json s f))
  unfolding put_local put_local_tx get_owners
  put_local-Wrote entry now hs s s' o h =
      let e = record entry { owner_node_id = s.self_id; updated_at = now 0; deleted = false } in
      let (t, e1, e2) = >>=-eq-ok (put_entry bolt json hints_json e s) _ (update-eq-ok s _ h) in
      let w = put_entry-WroteEntry e s t e1 in
      let same : get_owners bolt json hints_json t entry.file_id ≡ ok hs = rw w.availability o in
      let v = add_availability-WroteHints entry.file_id s.self_id (now 1) hs t s' same e2 in
      (
        λ k. rw v.entries (w.found k),
        λ f.
            subst
              (λ a. get_owners bolt json hints_json s' f ≡ (
                if eqb entry.file_id f
                then ok (hints_json.repair (see s.self_id (now 1) hs))
                else read_hints bolt json hints_json (get a f)))
              w.availability (v.found f),
      )
