-- ===== src/Identity.antt =====
-- internal/identity/identity.go: the node's key and id.
pub mod Stable
mod Tests
use kin.Base.{
  ℕ, ◌≡◌, Bool, true, false, not, Option, none, some, ◌==◌, if◌then◌else◌, length, Bytes, Result,
  ok, err,
}

abbrev pub seed_size : ℕ
seed_size = 32

-- ed25519 and SHA-256, as the package uses them: a private key gives back the seed it is made from.
pub record Ed25519 : Type 1 where
  pub PrivKey : Type 0
  pub new_key : Bytes → PrivKey
  pub seed : PrivKey → Bytes
  pub public : PrivKey → Bytes
  pub sha256 : Bytes → Bytes
  pub seed-new_key : (s : Bytes) → length s ≡ seed_size → seed (new_key s) ≡ s

pub data IdentityError : Type 0 where
  seed_failed mkdir_failed write_failed not_exist unreadable corrupt : IdentityError

-- The file identity.key, and the disk: whether the directory can be made and the file written, and
-- what a write that fails leaves.
pub data KeyFile : Type 0 where
  absent closed_to_us : KeyFile
  holds : Bytes → KeyFile

pub record Disk : Type 0 where
  pub key_file : KeyFile
  pub mkdir_ok : Bool
  pub write_ok : Bool
  pub left : KeyFile

module _ (ed : Ed25519) where
  open ed use {PrivKey, new_key, seed, public, sha256}

  pub record Identity : Type 0 where
    pub priv_key : PrivKey
    pub pub_key : Bytes
    pub node_id : Bytes

  -- `fromSeed`
  pub from_seed : Bytes → Identity
  from_seed s = record {
    priv_key = new_key s;
    pub_key = public (new_key s);
    node_id = sha256 (public (new_key s));
  }

  -- `Generate`; `random` is what `rand.Read` gives.
  pub generate : Option Bytes → Result IdentityError Identity
  unfolding from_seed
  generate none = err seed_failed
  generate (some s) = ok (from_seed s)

  -- `Save`
  pub save : Identity → Disk → Result IdentityError (Unit {0}) × Disk
  save id d =
      if not d.mkdir_ok
      then (err mkdir_failed, d)
      else if d.write_ok
      then (ok tt, record d { key_file = holds (seed id.priv_key) })
      else (err write_failed, record d { key_file = d.left })

  -- `Load`
  pub load_file : KeyFile → Result IdentityError Identity
  unfolding from_seed
  load_file absent = err not_exist
  load_file closed_to_us = err unreadable
  load_file (holds s) = if not (length s == seed_size) then err corrupt else ok (from_seed s)

  pub load : Disk → Result IdentityError Identity
  unfolding load_file
  load d = load_file d.key_file

  abbrev pub saved :
      Identity → Result IdentityError (Unit {0}) × Disk → Result IdentityError Identity × Disk
  saved id (ok u, d) = (ok id, d)
  saved id (err e, d) = (err e, d)

  pub generate_and_save :
      Result IdentityError Identity → Disk → Result IdentityError Identity × Disk
  unfolding save
  generate_and_save (err e) d = (err e, d)
  generate_and_save (ok id) d = saved id (save id d)

  abbrev pub loaded :
      Option Bytes → Disk → Result IdentityError Identity → Result IdentityError Identity × Disk
  loaded random d (ok id) = (ok id, d)
  loaded random d (err not_exist) = generate_and_save (generate random) d
  loaded random d (err seed_failed) = (err seed_failed, d)
  loaded random d (err mkdir_failed) = (err mkdir_failed, d)
  loaded random d (err write_failed) = (err write_failed, d)
  loaded random d (err unreadable) = (err unreadable, d)
  loaded random d (err corrupt) = (err corrupt, d)

  -- `LoadOrGenerate`
  pub load_or_generate : Option Bytes → Disk → Result IdentityError Identity × Disk
  unfolding generate generate_and_save load
  load_or_generate random d = loaded random d (load d)
