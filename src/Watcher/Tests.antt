-- ===== src/Watcher/Tests.antt =====
-- A watched directory, and the theorems at concrete inputs.
use kin.Base.{ℕ, ◌≡◌, refl, true, false, none, some, List, [], ◌∷◌, ◌++◌, arith, Bytes, eqb, ok}
use kin.Base.Ints.{pos}
use kin.Base.Times.{Time}
use kin.Bolt.{Json}
use kin.Bolt.Memory.{memory}
use kin.Catalog.{Entry, OwnerHint, put_local, get_owners}
use kin.Transfer.{Host, new_local_index}
use kin.Watcher.{
  Services, Info, FileEvent, Watcher, debounce_delay, index_file, store_file, fire, watch, scan,
  handle_event, handle_remove,
}
use kin.Watcher.Bursts.{watch-fire_once}
use kin.Watcher.Indexing.{local_services, Indexed, index_file-Indexed}

-- Services that take everything; every file is regular and hashes to its path.
abbrev services : Services
services = record {
  Catalog = Unit {0};
  put_local = λ e c. (true, c);
  delete_local = λ id c. (true, c);
  lookup_local_by_path = λ path c. none;
  Index = Unit {0};
  add = λ path i. (true, i);
  remove = λ h i. i;
  stat = λ path. some (record { is_regular = true; size = pos 1; mod_time = pos 0 });
  hash_file = λ path. some path;
  base = λ path. path;
}

abbrev start : Watcher services
start = record { catalog = tt; index = tt; timers = []; changes = 0; tried = [] }

abbrev path : Bytes
path = b'p' ∷ []

abbrev written : FileEvent
written = record { name = path; create = false; write = true; remove = false; rename = false }

abbrev removed : FileEvent
removed = record { name = path; create = false; write = false; remove = true; rename = false }

watch-fire_once_example :
    fire services 700000001 (watch services ((1, written) ∷ (200000000, written) ∷ []) start)
    ≡ (index_file services path start).1
watch-fire_once_example =
    watch-fire_once services path 1 700000001 written ((200000000, written) ∷ []) start refl refl
      (refl, refl, omega arith, omega arith, tt)

-- A file that is removed before its timer fires is not indexed.
removed_run :
    (fire services 900000000 (watch services ((1, written) ∷ (2, removed) ∷ []) start)).tried ≡ []
unfolding fire watch eqb
removed_run = refl

scan_run : (scan services (some (path, true) ∷ some (path, false) ∷ none ∷ []) start).1.changes ≡ 1
unfolding scan
scan_run = refl

abbrev song : Entry
song = record {
  file_id = 7 ∷ [];
  name = path;
  size = pos 1;
  mod_time = pos 0;
  owner_node_id = 1 ∷ [];
  local_path = path;
  deleted = false;
  updated_at = pos 0;
}

-- A JSON for runs: every text stands for `song`.
abbrev song_json : Json Entry
song_json = record {
  marshal = λ e. some (1 ∷ []);
  unmarshal = λ raw. some song;
  repair = λ e. song;
  unmarshal-marshal = λ e raw h. refl;
}

abbrev no_hints_json : Json (List OwnerHint)
no_hints_json = record {
  marshal = λ hs. some (1 ∷ []);
  unmarshal = λ raw. some [];
  repair = λ hs. [];
  unmarshal-marshal = λ hs raw h. refl;
}

abbrev host : Host
host = record {
  sha256 = λ bytes. bytes;
  read_file = λ p. some (7 ∷ []);
  stat = λ p. none;
  open_file = λ p. none;
  dest_path = λ dir id. dir ++ id;
}

abbrev info : Info
info = record { is_regular = true; size = pos 1; mod_time = pos 0 }

abbrev clock : ℕ → Time
clock i = pos i

abbrev store_services : Services
store_services = local_services memory song_json no_hints_json host clock (λ p. some info) (λ p. p)

abbrev empty : Watcher store_services
unfolding memory
empty = record {
  catalog = record { entries = memory.empty; availability = memory.empty; self_id = 1 ∷ [] };
  index = new_local_index;
  timers = [];
  changes = 0;
  tried = [];
}

no_owners : get_owners memory song_json no_hints_json empty.catalog (7 ∷ []) ≡ ok []
unfolding get_owners memory
no_owners = refl

index_file-Indexed_example :
    ((index_file store_services path empty).0 ≡ true)
    × Indexed memory song_json no_hints_json host clock
        (λ p. some info)
        (λ p. p)
        path
        (7 ∷ [])
        info
        empty
        (index_file store_services path empty).1
unfolding put_local memory kin.Watcher.entry_for
index_file-Indexed_example =
    index_file-Indexed memory song_json no_hints_json host clock (λ p. some info) (λ p. p) path
      (7 ∷ []) info [] empty
      (put_local memory song_json no_hints_json
        (kin.Watcher.entry_for store_services path info (7 ∷ [])) clock empty.catalog).1
      refl refl refl no_owners refl
