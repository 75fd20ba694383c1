-- ===== src/Identity/Stable.antt =====
-- A node keeps its identity.
use mathlib.Core.Path.{subst}
use kin.Base.{
  ◌≡◌, ◌⊎◌, refl, ap, not, Option, none, some, ◌==◌, arith, length, Bytes, Result, ok, err,
  Bool-cases, inl, inr,
}
use kin.Identity.{
  seed_size, Ed25519, IdentityError, KeyFile, absent, closed_to_us, holds, Disk, Identity,
  from_seed, generate, save, load_file, load, saved, generate_and_save, loaded, load_or_generate,
}

module _ (ed : Ed25519) where
  open ed use {new_key, seed, seed-new_key}

  -- What a call leaves. An identity that is returned stands in the file, so that it is loaded from
  -- then on. A file that was there is as it was, and with an error, if there was none, the call has
  -- failed to make one.
  abbrev pub Kept : Disk → Result IdentityError (Identity ed) × Disk → Type 0
  Kept d (ok id, d') =
      (s : Bytes) × (length s ≡ seed_size)
      × (d'.key_file ≡ holds s)
      × (id ≡ from_seed ed s)
      × ((d' ≡ d) ⊎ (d.key_file ≡ absent))
  Kept d (err e, d') = (d' ≡ d) ⊎ (d.key_file ≡ absent)

  saved-Kept :
      (s : Bytes) (d : Disk)
      → d.key_file ≡ absent
      → length s ≡ seed_size
      → Kept d (saved ed (from_seed ed s) (save ed (from_seed ed s) d))
  unfolding save from_seed
  saved-Kept s d none_there h = elim (Bool-cases (not d.mkdir_ok)) [
    | inl m ↦ rw m (inl refl)
    | inr m ↦ elim (Bool-cases d.write_ok) [
      | inl w ↦ rw (m, w) (s, h, ap holds (seed-new_key s h), refl, inr none_there)
      | inr w ↦ rw (m, w) (inr none_there)
    ]
  ]

  -- What `rand.Read` gives fills the buffer, if it does not fail.
  abbrev pub IsSeed : Option Bytes → Type 0
  IsSeed none = Unit {0}
  IsSeed (some s) = length s ≡ seed_size

  made-Kept :
      (random : Option Bytes) (d : Disk)
      → d.key_file ≡ absent
      → IsSeed random
      → Kept d (generate_and_save ed (generate ed random) d)
  unfolding generate_and_save generate
  made-Kept none d none_there h = inl refl
  made-Kept (some s) d none_there h = saved-Kept s d none_there h

  file-Kept :
      (f : KeyFile) (random : Option Bytes) (d : Disk)
      → d.key_file ≡ f
      → IsSeed random
      → Kept d (loaded ed random d (load_file ed f))
  unfolding load_file
  file-Kept absent random d e h = made-Kept random d e h
  file-Kept closed_to_us random d e h = inl refl
  file-Kept (holds s) random d e h = elim (Bool-cases (length s == seed_size)) [
    | inl size ↦ rw size (s, ground arith, e, refl, inl refl)
    | inr size ↦ rw size (inl refl)
  ]

  load_or_generate-Kept :
      (random : Option Bytes) (d : Disk) → IsSeed random → Kept d (load_or_generate ed random d)
  unfolding load_or_generate load
  load_or_generate-Kept random d h = file-Kept d.key_file random d refl h

  again :
      (s : Bytes) (random : Option Bytes) (d : Disk)
      → length s ≡ seed_size
      → d.key_file ≡ holds s
      → load_or_generate ed random d ≡ (ok (from_seed ed s), d)
  unfolding load_or_generate load load_file
  again s random d size e = rw e (ground arith)

  -- An identity that LoadOrGenerate has returned, read from the file or newly made, is the one that
  -- it returns from then on, whatever randomness it is given, and the file stays as it is; where a
  -- file was there, the first call has left it as it was.
  pub load_or_generate-stable :
      (random later : Option Bytes) (d d' : Disk) (id : Identity ed)
      → IsSeed random
      → load_or_generate ed random d ≡ (ok id, d')
      → (load_or_generate ed later d' ≡ (ok id, d')) × ((d' ≡ d) ⊎ (d.key_file ≡ absent))
  load_or_generate-stable random later d d' id h e =
      let (s, size, file, same, kept) : Kept d (ok id, d') =
        subst (Kept d) e (load_or_generate-Kept random d h) in
      (rw same (again s later d' size file), kept)
