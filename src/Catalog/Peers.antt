-- ===== src/Catalog/Peers.antt =====
-- The entries of a peer are replaced by an offer.
use mathlib.Core.Path.{subst}
use kin.Base.{
  ℕ, ◌+◌, ◌≡◌, refl, sym, ap, ◌∙◌, inl, inr, Bool, true, false, not, Option, none, some, List, [],
  ◌∷◌, if◌then◌else◌, arith, length, Bytes, eqb, eqb_iff, eqb-append, Bool-cases, ok, >>=-eq-ok,
  ok_injective,
}
use kin.Base.Times.{Time}
use kin.Bolt.{Bolt, Json, or_fail, or_fail-eq-ok, update-eq-ok}
use kin.Bolt.Keys.{has_prefix, lookup}
use kin.Bolt.Order.{has_prefix-append}
use kin.Bolt.Scan.{Pairs, scan, scan-eq-with_prefix, lookup-with_prefix}
use kin.Catalog.{
  Entry, OwnerHint, CatalogError, delete_failed, composite_key, Store, put_entry, add_availability,
  delete_pairs, delete_by_prefix, put_peer_entry, put_peer_loop, put_peer_entries_tx,
  put_peer_entries, get_owners, read_hints, read_entry, get_entry,
}
use kin.Catalog.Entries.{entry_at, put_entry-WroteEntry, put_hints-WroteHints}

-- The later entry counts, if there is one.
abbrev latest : Entry → Bytes → Option Entry → Option Entry
latest e f none = if eqb e.file_id f then some e else none
latest e f (some later) = some later

-- The entry that an offer has for a file: the last one, if it has several.
pub offered : Bytes → List Entry → Option Entry
offered f [] = none
offered f (e ∷ es) = latest e f (offered f es)

latest-eq-none :
    (e : Entry) (f : Bytes) (o : Option Entry)
    → latest e f o ≡ none
    → (o ≡ none) × (eqb e.file_id f ≡ false)
latest-eq-none e f none h = ground arith
latest-eq-none e f (some later) h = cc

eqb_sym : (xs ys : Bytes) → eqb ys xs ≡ false → eqb xs ys ≡ false
eqb_sym xs ys h = ground (arith, eqb_iff xs ys, eqb_iff ys xs)

-- Keys of one peer differ where the files do, and keys of two nodes always.
same_peer : (peer g f : Bytes) → eqb (composite_key peer g) (composite_key peer f) ≡ eqb g f
same_peer peer g f = eqb-append peer peer g f refl ∙ rw ((eqb_iff peer peer).1 refl) refl

other_peer :
    (peer o g f : Bytes)
    → length peer ≡ length o
    → eqb peer o ≡ false
    → eqb (composite_key peer g) (composite_key o f) ≡ false
other_peer peer o g f e ne = eqb-append peer o g f e ∙ rw ne refl

module _ (bolt : Bolt) (json : Json Entry) (hints_json : Json (List OwnerHint)) where
  open bolt use {Bucket, pairs, get, delete, pairs-IsSorted, get-eq-lookup, get-delete}
  open json use {repair}

  -- Deleting the pairs of a list takes their keys out of a bucket, and no other.
  delete_pairs_lem :
      (ps : Pairs) (b b' : Bucket) (j : Bytes)
      → delete_pairs bolt json hints_json ps b ≡ ok b'
      → get b' j ≡ elim (lookup j ps) [ none ↦ get b j | some _ ↦ none ]
  unfolding delete_pairs lookup
  delete_pairs_lem [] b b' j h = ap (λ c. get c j) (sym (ok_injective {E = CatalogError} refl h))
  delete_pairs_lem ((k, raw) ∷ ps) b b' j h =
      let (c, e1, e2) = >>=-eq-ok (or_fail (delete b k) delete_failed) _ h in
      delete_pairs_lem ps c b' j e2
      ∙ ground (arith, get-delete b c k j (or_fail-eq-ok _ delete_failed e1))

  scan_found :
      (owner : Bytes) (b : Bucket) (j : Bytes)
      → lookup j (scan owner (pairs b)) ≡ (if has_prefix j owner then get b j else none)
  scan_found owner b j =
      ap (lookup j) (scan-eq-with_prefix owner (pairs b) (pairs-IsSorted b))
      ∙ lookup-with_prefix owner j (pairs b)
      ∙ ap (λ o. if has_prefix j owner then o else none) (sym (get-eq-lookup b j))

  -- After `deleteByPrefix` no key has the prefix, and the other keys are as before.
  delete_by_prefix_lem :
      (owner : Bytes) (s s' : Store bolt json hints_json) (j : Bytes)
      → delete_by_prefix bolt json hints_json owner s ≡ ok s'
      → (get s'.entries j ≡ (if has_prefix j owner then none else get s.entries j))
        × (s'.availability ≡ s.availability)
        × (s'.self_id ≡ s.self_id)
  unfolding delete_by_prefix
  delete_by_prefix_lem owner s s' j h =
      let ps = pairs s.entries in
      let (b, e, last) =
        >>=-eq-ok (delete_pairs bolt json hints_json (scan owner ps) s.entries) _ h in
      let found : lookup j (scan owner ps)
          ≡ (if has_prefix j owner then get s.entries j else none) =
        scan_found owner s.entries j in
      subst
        (λ (t : Store bolt json hints_json).
          (get t.entries j ≡ (if has_prefix j owner then none else get s.entries j))
          × (t.availability ≡ s.availability)
          × (t.self_id ≡ s.self_id))
        (ok_injective refl last)
        (delete_pairs_lem (scan owner ps) s.entries b j e ∙ ground (arith, found), refl, refl)

  -- What the hints under a file are after one more entry of a peer.
  record Offers (peer : Bytes) (entry : Entry) (stamp : Time) (s s' : Store bolt json hints_json)
      : Type 0 where
    found :
        (k : Bytes)
        → entry_at bolt json hints_json s' k ≡ (
            if eqb (composite_key peer entry.file_id) k
            then ok (some (repair (record entry { owner_node_id = peer; updated_at = stamp })))
            else entry_at bolt json hints_json s k)
    others :
        (f : Bytes)
        → eqb entry.file_id f ≡ false
        → get_owners bolt json hints_json s' f ≡ get_owners bolt json hints_json s f

  add_availability_others :
      (file_id node_id : Bytes) (now : Time) (s s' : Store bolt json hints_json)
      → add_availability bolt json hints_json file_id node_id now s ≡ ok s'
      → (s'.entries ≡ s.entries)
        × ((f : Bytes)
            → eqb file_id f ≡ false
            → get_owners bolt json hints_json s' f ≡ get_owners bolt json hints_json s f)
  unfolding add_availability
  add_availability_others file_id node_id now s s' h =
      let w = put_hints-WroteHints bolt json hints_json file_id _ s s' h in
      (w.entries, λ f ne. w.found f ∙ rw ne refl)

  maybe_add :
      (deleted : Bool) (file_id peer : Bytes) (now : Time) (t s' : Store bolt json hints_json)
      → (if not deleted then add_availability bolt json hints_json file_id peer now t else ok t)
        ≡ ok s'
      → (s'.entries ≡ t.entries)
        × ((f : Bytes)
            → eqb file_id f ≡ false
            → get_owners bolt json hints_json s' f ≡ get_owners bolt json hints_json t f)
  maybe_add false file_id peer now t s' h = add_availability_others file_id peer now t s' h
  maybe_add true file_id peer now t s' h =
      let same : t ≡ s' = ok_injective {E = CatalogError} refl h in
      (
        ap (λ (c : Store bolt json hints_json). c.entries) (sym same),
        λ f ne. ap (λ c. get_owners bolt json hints_json c f) (sym same),
      )

  put_peer_entry-Offers :
      (peer : Bytes) (entry : Entry) (now : ℕ → Time) (i : ℕ) (s s' : Store bolt json hints_json)
      → put_peer_entry bolt json hints_json peer entry now i s ≡ ok s'
      → Offers peer entry (now i) s s'
  unfolding put_peer_entry get_owners
  put_peer_entry-Offers peer entry now i s s' h =
      let e = record entry { owner_node_id = peer; updated_at = now i } in
      let (t, e1, e2) = >>=-eq-ok (put_entry bolt json hints_json e s) _ h in
      let w = put_entry-WroteEntry bolt json hints_json e s t e1 in
      let (entries, owners) = maybe_add entry.deleted entry.file_id peer (now (i + 1)) t s' e2 in
      record {
        found = λ k. rw entries (w.found k);
        others = λ f ne.
            owners f ne ∙ ap (λ a. read_hints bolt json hints_json (get a f)) w.availability;
      }

  -- What a file's entry of the peer has become, given what the offer has for it.
  abbrev pub Replaced :
      Bytes
      → Bytes
      → (ℕ → Time)
      → Store bolt json hints_json
      → Store bolt json hints_json
      → Option Entry
      → Type 0
  Replaced peer f now s s' none =
      get_entry bolt json hints_json s' peer f ≡ get_entry bolt json hints_json s peer f
  Replaced peer f now s s' (some e) =
      (i : ℕ) × (get_entry bolt json hints_json s' peer f
        ≡ ok (some (repair (record e { owner_node_id = peer; updated_at = now i }))))

  Replaced-step :
      (peer f : Bytes) (e : Entry) (now : ℕ → Time) (i : ℕ) (s t s' : Store bolt json hints_json)
      (o : Option Entry)
      → Offers peer e (now i) s t
      → Replaced peer f now t s' o
      → Replaced peer f now s s' (latest e f o)
  unfolding get_entry
  Replaced-step peer f e now i s t s' none w r = elim (Bool-cases (eqb e.file_id f)) [
    | inl same ↦
        rw same (i, r ∙ w.found (composite_key peer f) ∙ rw (same_peer peer e.file_id f, same) refl)
    | inr ne ↦ rw ne (r ∙ w.found (composite_key peer f) ∙ rw (same_peer peer e.file_id f, ne) refl)
  ]
  Replaced-step peer f e now i s t s' (some later) w r = r

  -- After the loop of `PutPeerEntries`.
  record Looped (peer : Bytes) (entries : List Entry) (now : ℕ → Time)
      (s s' : Store bolt json hints_json) : Type 0 where
    own : (f : Bytes) → Replaced peer f now s s' (offered f entries)
    foreign :
        (o f : Bytes)
        → length peer ≡ length o
        → eqb peer o ≡ false
        → get_entry bolt json hints_json s' o f ≡ get_entry bolt json hints_json s o f
    unoffered :
        (f : Bytes)
        → offered f entries ≡ none
        → get_owners bolt json hints_json s' f ≡ get_owners bolt json hints_json s f

  put_peer_loop-Looped :
      (peer : Bytes) (entries : List Entry) (now : ℕ → Time) (i : ℕ)
      (s s' : Store bolt json hints_json)
      → put_peer_loop bolt json hints_json peer entries now i s ≡ ok s'
      → Looped peer entries now s s'
  unfolding put_peer_loop offered get_entry
  put_peer_loop-Looped peer [] now i s s' h =
      subst (Looped peer [] now s) (ok_injective refl h)
        (record { own = λ f. refl; foreign = λ o f e ne. refl; unoffered = λ f e. refl })
  put_peer_loop-Looped peer (e ∷ es) now i s s' h =
      let (t, e1, e2) = >>=-eq-ok (put_peer_entry bolt json hints_json peer e now i s) _ h in
      let w = put_peer_entry-Offers peer e now i s t e1 in
      let later =
        put_peer_loop-Looped peer es now (if not e.deleted then i + 2 else i + 1) t s' e2 in
      record {
        own = λ f. Replaced-step peer f e now i s t s' (offered f es) w (later.own f);
        foreign = λ o f l ne.
            later.foreign o f l ne
            ∙ w.found (composite_key o f)
            ∙ rw (other_peer peer o e.file_id f l ne) refl;
        unoffered = λ f none_offered.
            let (rest, ne) = latest-eq-none e f (offered f es) none_offered in
            later.unoffered f rest ∙ w.others f ne;
      }

  -- After `deleteByPrefix` the peer has no entry, and every other node has those it had.
  pub delete_by_prefix_own :
      (peer f : Bytes) (s t : Store bolt json hints_json)
      → delete_by_prefix bolt json hints_json peer s ≡ ok t
      → get_entry bolt json hints_json t peer f ≡ ok none
  unfolding get_entry
  delete_by_prefix_own peer f s t h =
      ap (read_entry bolt json hints_json)
        ((delete_by_prefix_lem peer s t (composite_key peer f) h).0)
      ∙ rw (has_prefix-append peer f peer refl, (eqb_iff peer peer).1 refl) refl

  pub delete_by_prefix_foreign :
      (peer o f : Bytes) (s t : Store bolt json hints_json)
      → length peer ≡ length o
      → eqb peer o ≡ false
      → delete_by_prefix bolt json hints_json peer s ≡ ok t
      → get_entry bolt json hints_json t o f ≡ get_entry bolt json hints_json s o f
  unfolding get_entry
  delete_by_prefix_foreign peer o f s t l ne h =
      ap (read_entry bolt json hints_json) ((delete_by_prefix_lem peer s t (composite_key o f) h).0)
      ∙ rw (has_prefix-append o f peer (sym l), eqb_sym o peer ne) refl

  delete_by_prefix_owners :
      (peer f : Bytes) (s t : Store bolt json hints_json)
      → delete_by_prefix bolt json hints_json peer s ≡ ok t
      → get_owners bolt json hints_json t f ≡ get_owners bolt json hints_json s f
  unfolding get_owners
  delete_by_prefix_owners peer f s t h =
      ap (λ a. read_hints bolt json hints_json (get a f)) ((delete_by_prefix_lem peer s t f h).1)

  -- What the peer's entry of a file is after an offer: none, or the offered one, dated.
  abbrev pub AsOffered :
      Bytes → Bytes → (ℕ → Time) → Store bolt json hints_json → Option Entry → Type 0
  AsOffered peer f now s' none = get_entry bolt json hints_json s' peer f ≡ ok none
  AsOffered peer f now s' (some e) =
      (i : ℕ) × (get_entry bolt json hints_json s' peer f
        ≡ ok (some (repair (record e { owner_node_id = peer; updated_at = now i }))))

  AsOffered_lem :
      (peer f : Bytes) (now : ℕ → Time) (t s' : Store bolt json hints_json) (o : Option Entry)
      → get_entry bolt json hints_json t peer f ≡ ok none
      → Replaced peer f now t s' o
      → AsOffered peer f now s' o
  AsOffered_lem peer f now t s' none gone r = r ∙ gone
  AsOffered_lem peer f now t s' (some e) gone r = r

  -- What an offer does to the catalog.
  pub record Exchanged (peer : Bytes) (entries : List Entry) (now : ℕ → Time)
      (s s' : Store bolt json hints_json) : Type 0 where
    pub own : (f : Bytes) → AsOffered peer f now s' (offered f entries)
    pub foreign :
        (o f : Bytes)
        → length peer ≡ length o
        → eqb peer o ≡ false
        → get_entry bolt json hints_json s' o f ≡ get_entry bolt json hints_json s o f
    pub unoffered :
        (f : Bytes)
        → offered f entries ≡ none
        → get_owners bolt json hints_json s' f ≡ get_owners bolt json hints_json s f

  -- A `PutPeerEntries` that succeeds replaces the peer's entries: for each file the peer has the
  -- last entry that was offered, under its own id and dated, and none where none was offered. The
  -- entries of every other node are as before, and so are the owners of every file that was not
  -- offered: a node that withdraws a file stays among its owners.
  pub put_peer_entries-Exchanged :
      (peer : Bytes) (entries : List Entry) (now : ℕ → Time) (s s' : Store bolt json hints_json)
      → put_peer_entries bolt json hints_json peer entries now s ≡ (ok tt, s')
      → Exchanged peer entries now s s'
  unfolding put_peer_entries put_peer_entries_tx
  put_peer_entries-Exchanged peer entries now s s' h =
      let (t, e1, e2) =
        >>=-eq-ok (delete_by_prefix bolt json hints_json peer s) _ (update-eq-ok s _ h) in
      let looped = put_peer_loop-Looped peer entries now 0 t s' e2 in
      record {
        own = λ f.
            AsOffered_lem peer f now t s' (offered f entries) (delete_by_prefix_own peer f s t e1)
              (looped.own f);
        foreign =
            λ o f l ne. looped.foreign o f l ne ∙ delete_by_prefix_foreign peer o f s t l ne e1;
        unoffered = λ f none_offered.
            looped.unoffered f none_offered ∙ delete_by_prefix_owners peer f s t e1;
      }
