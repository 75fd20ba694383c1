-- ===== src/Catalog/Convert.antt =====
-- internal/catalog/convert.go: entries as they go over the wire.
mod Tests
use mathlib.Core.Path.{subst}
use kin.Base.{
  ◌≡◌, refl, ap, inl, inr, Bool, true, false, not, List, [], ◌∷◌, ◌==◌, if◌then◌else◌, arith,
  length, Bytes, Bool-cases, Result, ok, err, ok_injective,
}
use kin.Base.Ints.{ℤ, negsuc}
use kin.Base.Times.{Time, unix, from_unix, unix-from_unix}
use kin.Catalog.{Entry}

-- The message `CatalogFile` of proto/kin.proto.
pub record CatalogFile : Type 0 where
  pub file_id : Bytes
  pub name : Bytes
  pub size : ℤ
  pub mod_time_unix : ℤ
  pub owner_node_id : Bytes
  pub deleted : Bool

pub data ConvertError : Type 0 where
  bad_file_id bad_owner_node_id : ConvertError

-- Go's zero time, the first of January of the year 1.
abbrev pub zero_time : Time
zero_time = negsuc 62135596799999999999

-- `EntryToProto`
unfoldable pub entry_to_proto : Entry → CatalogFile
entry_to_proto e = record {
  file_id = e.file_id;
  name = e.name;
  size = e.size;
  mod_time_unix = unix e.mod_time;
  owner_node_id = e.owner_node_id;
  deleted = e.deleted;
}

-- `ProtoToEntry`
pub proto_to_entry : CatalogFile → Result ConvertError Entry
proto_to_entry f =
    if not (length f.file_id == 32)
    then err bad_file_id
    else if not (length f.owner_node_id == 32)
    then err bad_owner_node_id
    else ok (record {
      file_id = f.file_id;
      name = f.name;
      size = f.size;
      mod_time = from_unix f.mod_time_unix;
      owner_node_id = f.owner_node_id;
      local_path = [];
      deleted = f.deleted;
      updated_at = zero_time;
    })

-- `EntriesToProto`
unfoldable pub entries_to_proto : List Entry → List CatalogFile
unfolding entry_to_proto
entries_to_proto [] = []
entries_to_proto (e ∷ es) = entry_to_proto e ∷ entries_to_proto es

no_entry : {x : ConvertError} {e : Entry} {P : Type 0} → Result.err x ≡ ok e → P
no_entry h = cc

-- An entry whose ids have 32 bytes each goes over the wire unchanged, but for its modification time,
-- which is rounded down to the second, and for its local path and its date, which stay at home.
pub proto_to_entry-entry_to_proto :
    (e : Entry)
    → length e.file_id ≡ 32
    → length e.owner_node_id ≡ 32
    → proto_to_entry (entry_to_proto e)
      ≡ ok (record e {
        mod_time = from_unix (unix e.mod_time);
        local_path = [];
        updated_at = zero_time;
      })
unfolding proto_to_entry entry_to_proto
proto_to_entry-entry_to_proto e h k =
    let file : (length e.file_id == 32) ≡ true = ground arith in
    let owner : (length e.owner_node_id == 32) ≡ true = ground arith in rw (file, owner) refl

-- A message that is read as an entry is what that entry is written as, and its ids have 32 bytes.
pub entry_to_proto-proto_to_entry :
    (f : CatalogFile) (e : Entry)
    → proto_to_entry f ≡ ok e
    → (entry_to_proto e ≡ f) × (length f.file_id ≡ 32) × (length f.owner_node_id ≡ 32)
unfolding proto_to_entry entry_to_proto
entry_to_proto-proto_to_entry f e h = elim (Bool-cases (length f.file_id == 32)) [
  | inr n ↦ no_entry (rw n at h)
  | inl file ↦ elim (Bool-cases (length f.owner_node_id == 32)) [
    | inr n ↦ no_entry (rw (file, n) at h)
    | inl owner ↦ (
      subst (λ (d : Entry). entry_to_proto d ≡ f)
          (ok_injective {E = ConvertError} refl (rw (file, owner) at h))
          (ap (λ s. record f { mod_time_unix = s }) (unix-from_unix f.mod_time_unix)),
      ground arith,
      ground arith,
    )
  ]
]
