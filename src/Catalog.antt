-- ===== src/Catalog.antt =====
-- internal/catalog/store.go and entry.go: the file catalog and its index of owners.
pub mod Hints
pub mod Entries
pub mod Peers
pub mod Removal
pub mod Convert
mod Tests
use kin.Base.{
  ℕ, zero, suc, ◌+◌, ◌≡◌, Bool, true, false, not, ◌&&◌, Option, none, some, List, [], ◌∷◌, ◌++◌,
  if◌then◌else◌, Bytes, eqb, Result, ok, err, ◌>>=◌,
}
use kin.Base.Ints.{ℤ}
use kin.Base.Times.{Time}
use kin.Bolt.{Bolt, Json, or_fail, update}
use kin.Bolt.Scan.{Pairs, scan}

pub record Entry : Type 0 where
  pub file_id : Bytes
  pub name : Bytes
  pub size : ℤ
  pub mod_time : Time
  pub owner_node_id : Bytes
  pub local_path : Bytes
  pub deleted : Bool
  pub updated_at : Time

pub record OwnerHint : Type 0 where
  pub node_id : Bytes
  pub seen_at : Time

pub data CatalogError : Type 0 where
  corrupt_entry corrupt_hints marshal_failed put_failed delete_failed : CatalogError

-- `[64]byte`: the owner's id and the file's id.
abbrev pub composite_key : Bytes → Bytes → Bytes
composite_key owner file_id = owner ++ file_id

-- The loop of `addAvailability`: the first hint of the node is dated anew, or one is added.
pub see : Bytes → Time → List OwnerHint → List OwnerHint
see node_id now [] = record { node_id = node_id; seen_at = now } ∷ []
see node_id now (h ∷ hs) =
    if eqb h.node_id node_id then record h { seen_at = now } ∷ hs else h ∷ see node_id now hs

-- The loop of `removeAvailability`.
pub forget : Bytes → List OwnerHint → List OwnerHint
forget node_id [] = []
forget node_id (h ∷ hs) =
    if not (eqb h.node_id node_id) then h ∷ forget node_id hs else forget node_id hs

abbrev pub or_empty : Option (List OwnerHint) → List OwnerHint
or_empty none = []
or_empty (some hs) = hs

-- What a caller that only looks for an error sees of a call.
abbrev pub succeeded : {S : Type 0} → Result CatalogError (Unit {0}) × S → Bool × S
succeeded (ok t, s) = (true, s)
succeeded (err e, s) = (false, s)

module _ (bolt : Bolt) (json : Json Entry) (hints_json : Json (List OwnerHint)) where
  open bolt use {Bucket, pairs, get, put, delete}
  open json use {marshal, unmarshal}

  -- The two buckets. `self_id` is the store's own node.
  pub record Store : Type 0 where
    pub entries : Bucket
    pub availability : Bucket
    pub self_id : Bytes

  pub put_entry : Entry → Store → Result CatalogError Store
  put_entry e s = do
    raw ← or_fail (marshal e) marshal_failed
    entries ← or_fail (put s.entries (composite_key e.owner_node_id e.file_id) raw) put_failed
    ok (record s { entries = entries })

  -- The hints under a file's id; where they cannot be read, `addAvailability` starts anew.
  abbrev pub old_hints : Option Bytes → List OwnerHint
  old_hints none = []
  old_hints (some raw) = or_empty (hints_json.unmarshal raw)

  pub put_hints : Bytes → List OwnerHint → Store → Result CatalogError Store
  put_hints file_id hs s = do
    raw ← or_fail (hints_json.marshal hs) marshal_failed
    availability ← or_fail (put s.availability file_id raw) put_failed
    ok (record s { availability = availability })

  pub add_availability : Bytes → Bytes → Time → Store → Result CatalogError Store
  unfolding put_hints see
  add_availability file_id node_id now s =
      put_hints file_id (see node_id now (old_hints (get s.availability file_id))) s

  pub drop_hints : Bytes → Store → Result CatalogError Store
  drop_hints file_id s = do
    availability ← or_fail (delete s.availability file_id) delete_failed
    ok (record s { availability = availability })

  -- What `removeAvailability` writes back: nothing where no owner is left.
  pub keep_hints : Bytes → List OwnerHint → Store → Result CatalogError Store
  unfolding drop_hints put_hints
  keep_hints file_id [] s = drop_hints file_id s
  keep_hints file_id (h ∷ hs) s = put_hints file_id (h ∷ hs) s

  pub filter_hints : Bytes → Bytes → Option (List OwnerHint) → Store → Result CatalogError Store
  unfolding keep_hints forget
  filter_hints file_id node_id none s = drop_hints file_id s
  filter_hints file_id node_id (some hs) s = keep_hints file_id (forget node_id hs) s

  pub remove_found : Bytes → Bytes → Option Bytes → Store → Result CatalogError Store
  unfolding filter_hints
  remove_found file_id node_id none s = ok s
  remove_found file_id node_id (some raw) s =
      filter_hints file_id node_id (hints_json.unmarshal raw) s

  pub remove_availability : Bytes → Bytes → Store → Result CatalogError Store
  unfolding remove_found
  remove_availability file_id node_id s =
      remove_found file_id node_id (get s.availability file_id) s

  -- `listByPrefixTx`: what cannot be read is passed over, and so are deleted entries.
  abbrev pub keep_live : Option Entry → List Entry → List Entry
  keep_live none es = es
  keep_live (some e) es = if e.deleted then es else e ∷ es

  pub live : Pairs → List Entry
  live [] = []
  live ((k, raw) ∷ ps) = keep_live (unmarshal raw) (live ps)

  pub list_by_prefix : Bytes → Store → List Entry
  unfolding live scan
  list_by_prefix owner s = live (scan owner (pairs s.entries))

  -- The loop of `deleteByPrefix`, over the pairs that its cursor visits.
  pub delete_pairs : Pairs → Bucket → Result CatalogError Bucket
  delete_pairs [] b = ok b
  delete_pairs ((k, raw) ∷ ps) b = do b' ← or_fail (delete b k) delete_failed; delete_pairs ps b'

  pub delete_by_prefix : Bytes → Store → Result CatalogError Store
  unfolding delete_pairs scan
  delete_by_prefix owner s = do
    entries ← delete_pairs (scan owner (pairs s.entries)) s.entries
    ok (record s { entries = entries })

  -- `PutLocal`; `now` gives the clock's readings in the order of the calls.
  pub put_local_tx : Entry → (ℕ → Time) → Store → Result CatalogError Store
  unfolding put_entry add_availability
  put_local_tx entry now s =
      let e = record entry { owner_node_id = s.self_id; updated_at = now 0; deleted = false } in
      do s' ← put_entry e s; add_availability entry.file_id s.self_id (now 1) s'

  unfoldable pub put_local : Entry → (ℕ → Time) → Store → Result CatalogError (Unit {0}) × Store
  unfolding put_local_tx
  put_local entry now s = update s (put_local_tx entry now s)

  pub mark_deleted : Bytes → Time → Option Entry → Store → Result CatalogError Store
  unfolding put_entry remove_availability
  mark_deleted file_id now none s = err corrupt_entry
  mark_deleted file_id now (some e) s = do
    s' ← put_entry (record e { deleted = true; updated_at = now }) s
    remove_availability file_id s.self_id s'

  pub delete_found : Bytes → Time → Option Bytes → Store → Result CatalogError Store
  unfolding mark_deleted
  delete_found file_id now none s = ok s
  delete_found file_id now (some raw) s = mark_deleted file_id now (unmarshal raw) s

  -- `DeleteLocal`
  unfoldable pub delete_local : Bytes → Time → Store → Result CatalogError (Unit {0}) × Store
  unfolding delete_found
  delete_local file_id now s =
      update s (delete_found file_id now (get s.entries (composite_key s.self_id file_id)) s)

  -- The body of `PutPeerEntries`' loop, at the clock's reading number `i`.
  pub put_peer_entry : Bytes → Entry → (ℕ → Time) → ℕ → Store → Result CatalogError Store
  unfolding put_entry add_availability
  put_peer_entry peer entry now i s = do
    s' ← put_entry (record entry { owner_node_id = peer; updated_at = now i }) s
    if not entry.deleted then add_availability entry.file_id peer (now (i + 1)) s' else ok s'

  pub put_peer_loop : Bytes → List Entry → (ℕ → Time) → ℕ → Store → Result CatalogError Store
  unfolding put_peer_entry
  put_peer_loop peer [] now i s = ok s
  put_peer_loop peer (entry ∷ rest) now i s = do
    s' ← put_peer_entry peer entry now i s
    put_peer_loop peer rest now (if not entry.deleted then i + 2 else i + 1) s'

  pub put_peer_entries_tx : Bytes → List Entry → (ℕ → Time) → Store → Result CatalogError Store
  unfolding delete_by_prefix put_peer_loop
  put_peer_entries_tx peer entries now s = do
    s' ← delete_by_prefix peer s
    put_peer_loop peer entries now 0 s'

  -- `PutPeerEntries`
  unfoldable pub put_peer_entries :
      Bytes → List Entry → (ℕ → Time) → Store → Result CatalogError (Unit {0}) × Store
  unfolding put_peer_entries_tx
  put_peer_entries peer entries now s = update s (put_peer_entries_tx peer entries now s)

  pub remove_loop : Bytes → List Entry → Store → Result CatalogError Store
  unfolding remove_availability
  remove_loop peer [] s = ok s
  remove_loop peer (e ∷ es) s = do s' ← remove_availability e.file_id peer s; remove_loop peer es s'

  pub remove_peer_tx : Bytes → Store → Result CatalogError Store
  unfolding remove_loop list_by_prefix delete_by_prefix
  remove_peer_tx peer s = do
    s' ← remove_loop peer (list_by_prefix peer s) s
    delete_by_prefix peer s'

  -- `RemovePeer`
  pub remove_peer : Bytes → Store → Result CatalogError (Unit {0}) × Store
  unfolding remove_peer_tx
  remove_peer peer s = update s (remove_peer_tx peer s)

  abbrev pub read_hints : Option Bytes → Result CatalogError (List OwnerHint)
  read_hints none = ok []
  read_hints (some raw) = or_fail (hints_json.unmarshal raw) corrupt_hints

  -- `GetOwners`
  unfoldable pub get_owners : Store → Bytes → Result CatalogError (List OwnerHint)
  get_owners s file_id = read_hints (get s.availability file_id)

  abbrev pub parsed : Option Entry → Result CatalogError (Option Entry)
  parsed none = err corrupt_entry
  parsed (some e) = ok (some e)

  abbrev pub read_entry : Option Bytes → Result CatalogError (Option Entry)
  read_entry none = ok none
  read_entry (some raw) = parsed (unmarshal raw)

  -- `GetEntry`
  pub get_entry : Store → Bytes → Bytes → Result CatalogError (Option Entry)
  get_entry s owner file_id = read_entry (get s.entries (composite_key owner file_id))

  -- The loops of `ListAll` and `ListForPeer`, which stop at an entry that cannot be read.
  pub collect : (Entry → Bool) → Pairs → Result CatalogError (List Entry)
  collect wanted [] = ok []
  collect wanted ((k, raw) ∷ ps) = do
    e ← or_fail (unmarshal raw) corrupt_entry
    es ← collect wanted ps
    ok (if wanted e then e ∷ es else es)

  -- `ListAll`
  pub list_all : Store → Result CatalogError (List Entry)
  unfolding collect
  list_all s = collect (λ e. not e.deleted) (pairs s.entries)

  -- `ListForPeer`
  unfoldable pub list_for_peer : Bytes → Store → Result CatalogError (List Entry)
  unfolding collect
  list_for_peer exclude s =
      collect (λ e. not e.deleted && not (eqb e.owner_node_id exclude)) (pairs s.entries)

  abbrev pub with_path : Bytes → Option Entry → Option Entry → Option Entry
  with_path path none rest = rest
  with_path path (some e) rest = if not e.deleted && eqb e.local_path path then some e else rest

  pub find_path : Bytes → Pairs → Option Entry
  find_path path [] = none
  find_path path ((k, raw) ∷ ps) = with_path path (unmarshal raw) (find_path path ps)

  -- `LookupLocalByPath`
  unfoldable pub lookup_local_by_path : Bytes → Store → Option Entry
  unfolding find_path scan
  lookup_local_by_path path s = find_path path (scan s.self_id (pairs s.entries))
