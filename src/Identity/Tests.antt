-- ===== src/Identity/Tests.antt =====
-- A new identity and a damaged file, and the theorem at concrete inputs.
use kin.Base.{◌≡◌, ◌⊎◌, refl, true, false, none, some, [], ◌∷◌, replicate, Bytes, ok, err}
use kin.Identity.{
  Ed25519, absent, holds, Disk, corrupt, from_seed, generate, generate_and_save, save, load,
  load_file, load_or_generate,
}
use kin.Identity.Stable.{load_or_generate-stable}

-- Keys that are their seeds.
abbrev toy : Ed25519
toy = record {
  PrivKey = Bytes;
  new_key = λ s. s;
  seed = λ k. k;
  public = λ k. k;
  sha256 = λ bs. bs;
  seed-new_key = λ s h. refl;
}

abbrev fresh : Disk
fresh = record { key_file = absent; mkdir_ok = true; write_ok = true; left = absent }

-- A file that is too short is refused, and left alone.
damaged :
    load_or_generate toy (some (replicate 32 7)) (record fresh { key_file = holds (1 ∷ []) })
    ≡ (err corrupt, record fresh { key_file = holds (1 ∷ []) })
unfolding load_or_generate load load_file
damaged = refl

-- A write that fails half-way leaves a file that is refused from then on.
half :
    (load_or_generate toy
      (some (replicate 32 7))
      (load_or_generate toy
        (some (replicate 32 7))
        (record fresh { write_ok = false; left = holds (7 ∷ []) })).1).0
    ≡ err corrupt
unfolding load_or_generate load load_file generate generate_and_save save from_seed
half = refl

made :
    load_or_generate toy (some (replicate 32 7)) fresh
    ≡ (ok (from_seed toy (replicate 32 7)), record fresh { key_file = holds (replicate 32 7) })
unfolding load_or_generate load load_file generate generate_and_save save from_seed
made = refl

load_or_generate-stable_example :
    (load_or_generate toy none (record fresh { key_file = holds (replicate 32 7) })
      ≡ (ok (from_seed toy (replicate 32 7)), record fresh { key_file = holds (replicate 32 7) }))
    × ((record fresh { key_file = holds (replicate 32 7) } ≡ fresh) ⊎ (fresh.key_file ≡ absent))
load_or_generate-stable_example =
    load_or_generate-stable toy (some (replicate 32 7)) none fresh
      (record fresh { key_file = holds (replicate 32 7) }) (from_seed toy (replicate 32 7)) refl
      made
