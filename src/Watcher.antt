-- ===== src/Watcher.antt =====
-- internal/watcher: file events, debounced, that keep the catalog and the index of files up to date.
pub mod Bursts
pub mod Indexing
mod Tests
use kin.Base.{
  ℕ, ◌+◌, ◌≡◌, Bool, true, false, not, ◌||◌, Option, none, some, List, [], ◌∷◌, ◌++◌, leb,
  if◌then◌else◌, Bytes, eqb,
}
use kin.Base.Ints.{ℤ, pos}
use kin.Base.Times.{Time}
use kin.Catalog.{Entry}
use kin.Catalog.Convert.{zero_time}

-- `debounceDelay`, in nanoseconds.
abbrev pub debounce_delay : ℕ
debounce_delay = 500000000

-- What `os.Stat` tells of a file.
pub record Info : Type 0 where
  pub is_regular : Bool
  pub size : ℤ
  pub mod_time : Time

-- The interfaces `CatalogWriter` and `LocalIndexer`, and the file system: false stands for an error,
-- and `lookup_local_by_path` gives none for an error and for no entry.
pub record Services : Type 1 where
  pub Catalog : Type 0
  pub put_local : Entry → Catalog → Bool × Catalog
  pub delete_local : Bytes → Catalog → Bool × Catalog
  pub lookup_local_by_path : Bytes → Catalog → Option Entry
  pub Index : Type 0
  pub add : Bytes → Index → Bool × Index
  pub remove : Bytes → Index → Index
  pub stat : Bytes → Option Info
  pub hash_file : Bytes → Option Bytes
  pub base : Bytes → Bytes

-- `fsnotify.Event`: its path and the operations that it has.
pub record FileEvent : Type 0 where
  pub name : Bytes
  pub create : Bool
  pub write : Bool
  pub remove : Bool
  pub rename : Bool

-- The map `timers`: path and time at which the timer fires.
pub has_timer : Bytes → List (Bytes × ℕ) → Bool
has_timer path [] = false
has_timer path ((p, t) ∷ ts) = if eqb p path then true else has_timer path ts

pub stop_timer : Bytes → List (Bytes × ℕ) → List (Bytes × ℕ)
stop_timer path [] = []
stop_timer path ((p, t) ∷ ts) =
    if eqb p path then stop_timer path ts else (p, t) ∷ stop_timer path ts

pub reset_timer : Bytes → ℕ → List (Bytes × ℕ) → List (Bytes × ℕ)
reset_timer path at [] = []
reset_timer path at ((p, t) ∷ ts) =
    if eqb p path then (p, at) ∷ ts else (p, t) ∷ reset_timer path at ts

-- `schedule` at the time `now`.
pub schedule : ℕ → Bytes → List (Bytes × ℕ) → List (Bytes × ℕ)
unfolding has_timer reset_timer
schedule now path ts =
    if has_timer path ts
    then reset_timer path (now + debounce_delay) ts
    else ts ++ (path, now + debounce_delay) ∷ []

-- The timers that have not fired at the time `now`, and the paths of those that have.
pub waiting : ℕ → List (Bytes × ℕ) → List (Bytes × ℕ)
waiting now [] = []
waiting now ((p, t) ∷ ts) = if leb t now then waiting now ts else (p, t) ∷ waiting now ts

pub due : ℕ → List (Bytes × ℕ) → List Bytes
due now [] = []
due now ((p, t) ∷ ts) = if leb t now then p ∷ due now ts else due now ts

module _ (services : Services) where
  open services use {
    Catalog, put_local, delete_local, lookup_local_by_path, Index, add, stat, hash_file, base,
  }

  -- `Watcher` with its debouncer; `changes` counts the calls of `onChange`, and `tried` are the
  -- paths for which `indexFile` was called.
  pub record Watcher : Type 0 where
    pub catalog : Catalog
    pub index : Index
    pub timers : List (Bytes × ℕ)
    pub changes : ℕ
    pub tried : List Bytes

  abbrev pub notify_change : Watcher → Watcher
  notify_change w = record w { changes = w.changes + 1 }

  -- The entry for a file; `PutLocal` fills in the owner and the date.
  pub entry_for : Bytes → Info → Bytes → Entry
  entry_for path info hash = record {
    file_id = hash;
    name = base path;
    size = info.size;
    mod_time = info.mod_time;
    owner_node_id = [];
    local_path = path;
    deleted = false;
    updated_at = zero_time;
  }

  -- `indexFile` once the file is hashed.
  pub store_file : Bytes → Info → Bytes → Watcher → Bool × Watcher
  unfolding entry_for
  store_file path info hash w =
      let (put, catalog') = put_local (entry_for path info hash) w.catalog in
      let (added, index') = add path w.index in
      if not put
      then (false, record w { catalog = catalog' })
      else if not added
      then (false, record w { catalog = catalog'; index = index' })
      else (true, notify_change (record w { catalog = catalog'; index = index' }))

  abbrev pub index_hashed : Bytes → Info → Option Bytes → Watcher → Bool × Watcher
  index_hashed path info none w = (false, w)
  index_hashed path info (some hash) w = store_file path info hash w

  abbrev pub index_found : Bytes → Option Info → Watcher → Bool × Watcher
  index_found path none w = (false, w)
  index_found path (some info) w =
      if not info.is_regular then (true, w) else index_hashed path info (hash_file path) w

  -- `indexFile`
  pub index_file : Bytes → Watcher → Bool × Watcher
  unfolding store_file
  index_file path w = index_found path (stat path) (record w { tried = w.tried ++ path ∷ [] })

  abbrev pub remove_found : Option Entry → Watcher → Watcher
  remove_found none w = w
  remove_found (some e) w =
      let (deleted, catalog') = delete_local e.file_id w.catalog in
      if not deleted
      then record w { catalog = catalog' }
      else notify_change
          (record w { catalog = catalog'; index = services.remove e.file_id w.index })

  -- `handleRemove`
  pub handle_remove : Bytes → Watcher → Watcher
  handle_remove path w = remove_found (lookup_local_by_path path w.catalog) w

  -- `handleEvent` at the time `now`.
  pub handle_event : ℕ → FileEvent → Watcher → Watcher
  unfolding schedule stop_timer handle_remove
  handle_event now ev w =
      if ev.create || ev.write
      then record w { timers = schedule now ev.name w.timers }
      else if ev.remove || ev.rename
      then handle_remove ev.name (record w { timers = stop_timer ev.name w.timers })
      else w

  pub index_all : List Bytes → Watcher → Watcher
  unfolding index_file
  index_all [] w = w
  index_all (p ∷ ps) w = index_all ps (index_file p w).1

  -- The timers that are due at the time `now` fire.
  pub fire : ℕ → Watcher → Watcher
  unfolding due waiting index_all
  fire now w = index_all (due now w.timers) (record w { timers = waiting now w.timers })

  -- The events with their times, and what fires before each of them.
  pub watch : List (ℕ × FileEvent) → Watcher → Watcher
  unfolding handle_event fire
  watch [] w = w
  watch ((now, ev) ∷ evs) w = watch evs (handle_event now ev (fire now w))

  -- `scan`, over the files that `WalkDir` visits: path, whether it is regular, or none for an error
  -- of the walk, which ends it.
  pub scan : List (Option (Bytes × Bool)) → Watcher → Bool × Watcher
  unfolding index_file
  scan [] w = (true, w)
  scan (none ∷ visits) w = (false, w)
  scan (some (path, regular) ∷ visits) w =
      scan visits (if not regular then w else (index_file path w).1)
