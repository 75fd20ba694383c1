-- ===== src/Catalog/Convert/Tests.antt =====
-- An entry on its way over the wire, and the theorems at concrete inputs.
use kin.Base.{◌≡◌, refl, false, true, [], ◌∷◌, length, replicate, Result, ok}
use kin.Base.Ints.{pos, negsuc}
use kin.Catalog.{Entry}
use kin.Catalog.Convert.{
  entry_to_proto, proto_to_entry, entries_to_proto, proto_to_entry-entry_to_proto,
}

abbrev song : Entry
song = record {
  file_id = replicate 32 7;
  name = b's' ∷ [];
  size = pos 10;
  mod_time = pos 1500000000;
  owner_node_id = replicate 32 1;
  local_path = b'p' ∷ [];
  deleted = false;
  updated_at = pos 2;
}

abbrev received : Entry
received = record song {
  mod_time = pos 1000000000;
  local_path = [];
  updated_at = negsuc 62135596799999999999;
}

entries_to_proto_run : entries_to_proto (song ∷ []) ≡ entry_to_proto song ∷ []
unfolding entries_to_proto
entries_to_proto_run = refl

proto_to_entry-entry_to_proto_example : proto_to_entry (entry_to_proto song) ≡ ok received
unfolding kin.Base.Times.unix kin.Base.Times.from_unix
proto_to_entry-entry_to_proto_example = proto_to_entry-entry_to_proto song refl refl

read : proto_to_entry (entry_to_proto song) ≡ ok received
unfolding proto_to_entry entry_to_proto kin.Base.Times.unix kin.Base.Times.from_unix
read = refl
