-- ===== src/Watcher/Indexing.antt =====
-- The watcher over the catalog's store and the index of local files.
use kin.Base.{
  ℕ, ◌+◌, ◌≡◌, refl, true, false, Option, some, List, [], ◌∷◌, ◌++◌, if◌then◌else◌, Bytes, eqb, ok,
}
use kin.Base.Times.{Time}
use kin.Bolt.{Bolt, Json}
use kin.Catalog.{
  Entry, OwnerHint, Store, composite_key, succeeded, put_local, delete_local, lookup_local_by_path,
  get_owners,
}
use kin.Catalog.Entries.{entry_at, put_local-Wrote}
use kin.Transfer.{Host, LocalIndex, lookup, add, remove, hash_file, add_with_hash}
use kin.Watcher.{Services, Info, Watcher, entry_for, store_file, index_file}

module _ (bolt : Bolt) (json : Json Entry) (hints_json : Json (List OwnerHint)) (host : Host)
    (now : ℕ → Time) (stat : Bytes → Option Info) (base : Bytes → Bytes) where
  -- The services that the program gives the watcher.
  abbrev pub local_services : Services
  local_services = record {
    Catalog = Store bolt json hints_json;
    put_local = λ e s. succeeded (put_local bolt json hints_json e now s);
    delete_local = λ id s. succeeded (delete_local bolt json hints_json id (now 0) s);
    lookup_local_by_path = λ path s. lookup_local_by_path bolt json hints_json path s;
    Index = LocalIndex;
    add = λ path idx. add host path idx;
    remove = remove;
    stat = stat;
    hash_file = λ path. hash_file host path;
    base = base;
  }

  added :
      (path content : Bytes) (idx : LocalIndex)
      → host.read_file path ≡ some content
      → (hash_file host path ≡ some (host.sha256 content))
        × (add host path idx ≡ (true, add_with_hash (host.sha256 content) path idx))
  unfolding hash_file add
  added path content idx f = rw (hash_file, f, add) (refl, refl)

  stored :
      (path content : Bytes) (info : Info) (w : Watcher local_services)
      (s' : Store bolt json hints_json)
      → stat path ≡ some info
      → info.is_regular ≡ true
      → host.read_file path ≡ some content
      → put_local bolt json hints_json
          (entry_for local_services path info (host.sha256 content))
          now
          w.catalog
        ≡ (ok tt, s')
      → index_file local_services path w ≡ (
        true,
        record {
          catalog = s';
          index = add_with_hash (host.sha256 content) path w.index;
          timers = w.timers;
          changes = w.changes + 1;
          tried = w.tried ++ path ∷ [];
        },
      )
  unfolding index_file store_file
  stored path content info w s' st r f p =
      let (hashed, indexed) = added path content w.index f in simp (st, r, hashed, p, indexed) refl

  -- What the indexing of a file with this content leaves.
  pub record Indexed (path content : Bytes) (info : Info) (w w' : Watcher local_services)
      : Type 0 where
    pub announced : w'.changes ≡ w.changes + 1
    pub entries :
        (k : Bytes)
        → entry_at bolt json hints_json w'.catalog k ≡ (
            if eqb (composite_key w.catalog.self_id (host.sha256 content)) k
            then ok (
                some (
                  json.repair (record (entry_for local_services path info (host.sha256 content)) {
                    owner_node_id = w.catalog.self_id;
                    updated_at = now 0;
                    deleted = false;
                  })))
            else entry_at bolt json hints_json w.catalog k)
    pub paths :
        (h : Bytes)
        → lookup w'.index h ≡ (if eqb (host.sha256 content) h then some path else lookup w.index h)

  -- A regular file that can be read and stored is indexed: its entry, under this node's id and the
  -- hash of its content, and its path, under the hash, are there, and the change is announced. Every
  -- other entry and path is as before, also those of a content that the file had before.
  pub index_file-Indexed :
      (path content : Bytes) (info : Info) (hs : List OwnerHint) (w : Watcher local_services)
      (s' : Store bolt json hints_json)
      → stat path ≡ some info
      → info.is_regular ≡ true
      → host.read_file path ≡ some content
      → get_owners bolt json hints_json w.catalog (host.sha256 content) ≡ ok hs
      → put_local bolt json hints_json
          (entry_for local_services path info (host.sha256 content))
          now
          w.catalog
        ≡ (ok tt, s')
      → ((index_file local_services path w).0 ≡ true)
        × Indexed path content info w (index_file local_services path w).1
  unfolding lookup add_with_hash entry_for
  index_file-Indexed path content info hs w s' st r f o p =
      let wrote =
        put_local-Wrote bolt json hints_json
          (entry_for local_services path info (host.sha256 content)) now hs w.catalog s' o p in
      rw (stored path content info w s' st r f p)
        (refl, record { announced = refl; entries = wrote.0; paths = λ h. refl })
