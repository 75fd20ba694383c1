-- ===== src/Download.antt =====
-- internal/download: a file fetched from the owners that the catalog knows.
pub mod Attempts
pub mod Plan
pub mod Safety
mod Tests
use kin.Base.{
  ℕ, suc, ◌≡◌, Bool, true, false, not, ◌||◌, Option, none, some, List, [], ◌∷◌, if◌then◌else◌,
  Bytes, eqb, Result, ok, err,
}
use kin.Base.Times.{after}
use kin.Catalog.{Entry, OwnerHint}
use kin.Messages.{Message}
use kin.Transfer.{Host, RecvError, Link, Disk, moved, request_file}

-- The interfaces `CatalogReader`, `PeerDialer` and `FileIndexer`, and the library functions that the
-- package calls. `get_entry` gives none for an error and for no entry; `dial` gives what the peer
-- sends on the connection and the connection itself; false from `add` stands for its error. `sort` is
-- sort.Slice with its comparator. `stat_ok` is whether os.Stat gives no error at a path, which it may
-- also do where something stands.
pub record Services : Type 1 where
  pub get_owners : Bytes → Option (List OwnerHint)
  pub get_entry : Bytes → Bytes → Option Entry
  pub dial : Bytes → Option (List Message × Link)
  pub Index : Type 0
  pub add : Bytes → Index → Bool × Index
  pub sort : (OwnerHint → OwnerHint → Bool) → List OwnerHint → List OwnerHint
  pub base : Bytes → Bytes
  pub join : Bytes → Bytes → Bytes
  pub stat_ok : Bytes → (Bytes → Option Bytes) → Bool
  pub rename_ok : Bytes → Bytes → Bool

pub data DownloadError : Type 0 where
  owners_failed no_available_owner dial_failed : DownloadError
  transfer_failed : RecvError → DownloadError

-- `filterSelf`
pub filter_self : Bytes → List OwnerHint → List OwnerHint
filter_self self_id [] = []
filter_self self_id (o ∷ os) =
    if not (eqb o.node_id self_id) then o ∷ filter_self self_id os else filter_self self_id os

-- The comparator of the sorting.
unfoldable pub seen_later : OwnerHint → OwnerHint → Bool
seen_later a b = after a.seen_at b.seen_at

module _ (services : Services) (host : Host) (shared_dir self_id : Bytes) where
  open services use {get_owners, get_entry, dial, Index, add, sort, base, join, stat_ok, rename_ok}

  -- What a download changes.
  pub record State : Type 0 where
    pub disk : Disk
    pub index : Index

  -- `renameToOriginal` once the name is known to be there.
  pub rename_to : Bytes → Bytes → Disk → Bytes × Disk
  rename_to name hash_path d =
      let safe_name = base name in
      let target = join shared_dir safe_name in
      if eqb safe_name (b'.' ∷ []) || eqb safe_name (b'/' ∷ [])
      then (hash_path, d)
      else if stat_ok target d.files
      then (hash_path, d)
      else if not (rename_ok hash_path target)
      then (hash_path, d)
      else (target, record d { files = moved hash_path target d.files })

  pub rename_found : Option Entry → Bytes → Disk → Bytes × Disk
  unfolding rename_to
  rename_found none hash_path d = (hash_path, d)
  rename_found (some e) hash_path d =
      if eqb e.name [] then (hash_path, d) else rename_to e.name hash_path d

  -- `renameToOriginal`
  pub rename_to_original : Bytes → Bytes → Bytes → Disk → Bytes × Disk
  unfolding rename_found
  rename_to_original file_id owner hash_path d = rename_found (get_entry owner file_id) hash_path d

  -- What `tryOwner` does once the file has been received.
  pub keep_file : Bytes → Bytes → Bytes → Disk → Index → Result DownloadError Bytes × State
  unfolding rename_to_original
  keep_file file_id owner dest_path d index =
      let (final_path, d') = rename_to_original file_id owner dest_path d in
      (ok final_path, record { disk = d'; index = (add final_path index).1 })

  abbrev pub received :
      Bytes → Bytes → Result RecvError Bytes → Disk → Index → Result DownloadError Bytes × State
  received file_id owner (err e) d index =
      (err (transfer_failed e), record { disk = d; index = index })
  received file_id owner (ok dest_path) d index = keep_file file_id owner dest_path d index

  abbrev pub dialled :
      (ℕ → Bool)
      → Bytes
      → Bytes
      → Option (List Message × Link)
      → State
      → Result DownloadError Bytes × State
  dialled cancelled file_id owner none s = (err dial_failed, s)
  dialled cancelled file_id owner (some (incoming, link)) s =
      let (done, l) = request_file host file_id shared_dir cancelled incoming link s.disk in
      received file_id owner done.0 done.1 s.index

  -- `tryOwner`
  pub try_owner : (ℕ → Bool) → Bytes → Bytes → State → Result DownloadError Bytes × State
  unfolding keep_file
  try_owner cancelled file_id owner s = dialled cancelled file_id owner (dial owner) s

  -- The loop of `Download` from its `k`-th turn on, and the error behind it. There is one context:
  -- `cancelled k i` is what the `i`-th look at it in the `k`-th turn finds.
  pub try_owners :
      (ℕ → ℕ → Bool) → ℕ → Bytes → List OwnerHint → State → Result DownloadError Bytes × State
  unfolding try_owner
  try_owners cancelled k file_id [] s = (err no_available_owner, s)
  try_owners cancelled k file_id (o ∷ os) s =
      let attempt = try_owner (cancelled k) file_id o.node_id s in
      elim attempt.0 [
        | ok path ↦ (ok path, attempt.1)
        | err e ↦ try_owners cancelled (suc k) file_id os attempt.1
      ]

  abbrev pub from_owners :
      (ℕ → ℕ → Bool) → Bytes → Option (List OwnerHint) → State → Result DownloadError Bytes × State
  from_owners cancelled file_id none s = (err owners_failed, s)
  from_owners cancelled file_id (some owners) s =
      let rest = try_owners cancelled 0 file_id (sort seen_later (filter_self self_id owners)) s in
      elim (filter_self self_id owners) [ [] ↦ (err no_available_owner, s) | o ∷ os ↦ rest ]

  -- `Download`
  pub download : (ℕ → ℕ → Bool) → Bytes → State → Result DownloadError Bytes × State
  unfolding filter_self try_owners seen_later
  download cancelled file_id s = from_owners cancelled file_id (get_owners file_id) s
