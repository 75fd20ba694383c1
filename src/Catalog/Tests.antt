-- ===== src/Catalog/Tests.antt =====
-- The catalog over buckets in memory, and the theorems at concrete inputs.
use kin.Base.{
  ℕ, zero, suc, ◌≡◌, refl, sym, ap, ◌∙◌, some_injective, Bool, true, false, Option, some, none,
  List, [], ◌∷◌, Bytes, eqb, length, ok,
}
use kin.Base.Ints.{pos}
use kin.Base.Times.{Time}
use kin.Bolt.{Json}
use kin.Bolt.Keys.{has_prefix}
use kin.Bolt.Memory.{memory}
use kin.Catalog.{
  Entry, OwnerHint, Store, put_local, delete_local, put_peer_entries, remove_peer, get_owners,
  get_entry, list_all, list_for_peer, lookup_local_by_path,
}
use kin.Catalog.Hints.{has_owner}
use kin.Catalog.Peers.{Exchanged, put_peer_entries-Exchanged}
use kin.Catalog.Removal.{remove_peer_entries}

abbrev song : Entry
song = record {
  file_id = 7 ∷ [];
  name = b's' ∷ [];
  size = pos 10;
  mod_time = pos 1;
  owner_node_id = 1 ∷ [];
  local_path = b'p' ∷ [];
  deleted = false;
  updated_at = pos 2;
}

abbrev flag : Bool → ℕ
flag false = 0
flag true = 1

abbrev from_flag : ℕ → Bool
from_flag zero = false
from_flag (suc n) = true

-- A JSON for runs: it keeps an entry's file and whether it is deleted.
abbrev read_entry : Bytes → Option Entry
read_entry [] = none
read_entry (b ∷ f) = some (record song { deleted = from_flag b; file_id = f })

from_flag-flag : (b : Bool) → from_flag (flag b) ≡ b
from_flag-flag false = refl
from_flag-flag true = refl

abbrev entry_json : Json Entry
entry_json = record {
  marshal = λ e. some (flag e.deleted ∷ e.file_id);
  unmarshal = read_entry;
  repair = λ e. record song { deleted = e.deleted; file_id = e.file_id };
  unmarshal-marshal = λ e raw h.
      ap read_entry (sym (some_injective h))
      ∙ ap (λ b. some (record song { deleted = b; file_id = e.file_id }))
          (from_flag-flag e.deleted);
}

abbrev first_byte : Bytes → ℕ
first_byte [] = 0
first_byte (b ∷ bs) = b

-- A JSON for runs: it keeps the first byte of each owner's id.
abbrev write_hints : List OwnerHint → Bytes
write_hints [] = []
write_hints (h ∷ hs) = first_byte h.node_id ∷ write_hints hs

abbrev read_hints : Bytes → List OwnerHint
read_hints [] = []
read_hints (b ∷ bs) = record { node_id = b ∷ []; seen_at = pos 0 } ∷ read_hints bs

abbrev hints_json : Json (List OwnerHint)
hints_json = record {
  marshal = λ hs. some (write_hints hs);
  unmarshal = λ raw. some (read_hints raw);
  repair = λ hs. read_hints (write_hints hs);
  unmarshal-marshal = λ hs raw h. ap (λ r. some (read_hints r)) (sym (some_injective h));
}

-- The store of the node 1.
abbrev empty : Store memory entry_json hints_json
unfolding memory
empty = record { entries = memory.empty; availability = memory.empty; self_id = 1 ∷ [] }

abbrev clock : ℕ → Time
clock i = pos i

abbrev kept : Store memory entry_json hints_json
kept = (put_local memory entry_json hints_json song clock empty).1

-- The node 2 offers the same file, and another.
abbrev offer : List Entry
offer = song ∷ record song { file_id = 8 ∷ [] } ∷ []

abbrev met : Store memory entry_json hints_json
met = (put_peer_entries memory entry_json hints_json (2 ∷ []) offer clock kept).1

hint : ℕ → OwnerHint
hint b = record { node_id = b ∷ []; seen_at = pos 0 }

put_local_run : put_local memory entry_json hints_json song clock empty ≡ (ok tt, kept)
unfolding put_local memory
put_local_run = refl

put_peer_entries_run :
    put_peer_entries memory entry_json hints_json (2 ∷ []) offer clock kept ≡ (ok tt, met)
unfolding put_peer_entries put_local memory eqb
put_peer_entries_run = refl

get_owners_run : get_owners memory entry_json hints_json met (7 ∷ []) ≡ ok (hint 1 ∷ hint 2 ∷ [])
unfolding get_owners put_peer_entries put_local memory eqb hint
get_owners_run = refl

-- A file that was deleted is passed over, and its owner is forgotten.
delete_local_run :
    (list_all memory entry_json hints_json
        (delete_local memory entry_json hints_json (7 ∷ []) (pos 5) kept).1
      ≡ ok [])
    × (get_owners memory entry_json hints_json
          (delete_local memory entry_json hints_json (7 ∷ []) (pos 5) kept).1
          (7 ∷ [])
        ≡ ok [])
unfolding list_all get_owners delete_local put_local memory eqb
delete_local_run = (refl, refl)

list_for_peer_run : list_for_peer memory entry_json hints_json (1 ∷ []) kept ≡ ok []
unfolding list_for_peer put_local memory eqb
list_for_peer_run = refl

lookup_local_by_path_run :
    lookup_local_by_path memory entry_json hints_json (b'p' ∷ []) kept ≡ some song
unfolding lookup_local_by_path put_local memory eqb has_prefix
lookup_local_by_path_run = refl

has_owner-empty : has_owner (1 ∷ []) [] ≡ false
unfolding has_owner
has_owner-empty = refl

put_peer_entries-Exchanged_example :
    Exchanged memory entry_json hints_json (2 ∷ []) offer clock kept met
put_peer_entries-Exchanged_example =
    put_peer_entries-Exchanged memory entry_json hints_json (2 ∷ []) offer clock kept met
      put_peer_entries_run

abbrev alone : Store memory entry_json hints_json
alone = (remove_peer memory entry_json hints_json (2 ∷ []) met).1

remove_peer_run : remove_peer memory entry_json hints_json (2 ∷ []) met ≡ (ok tt, alone)
unfolding remove_peer put_peer_entries put_local memory eqb has_prefix
remove_peer_run = refl

remove_peer_entries_example :
    ((f : Bytes) → get_entry memory entry_json hints_json alone (2 ∷ []) f ≡ ok none)
    × ((o f : Bytes)
        → length {A = ℕ} (2 ∷ []) ≡ length o
        → eqb (2 ∷ []) o ≡ false
        → get_entry memory entry_json hints_json alone o f
          ≡ get_entry memory entry_json hints_json met o f)
remove_peer_entries_example =
    remove_peer_entries memory entry_json hints_json (2 ∷ []) met alone remove_peer_run
