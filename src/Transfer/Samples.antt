-- ===== src/Transfer/Samples.antt =====
-- A disk for runs, on which everything works.
use mathlib.Core.Path.{subst}
use kin.Base.{◌≡◌, refl, true, Option, none, some, some_injective, [], ◌∷◌, Bytes}
use kin.Transfer.{Disk}

-- A name, where no file has it.
abbrev pub free_name : Bytes → Option Bytes → Option Bytes
free_name name none = some name
free_name name (some content) = none

pub free_name-eq-some :
    (name temp : Bytes) (o : Option Bytes) → free_name name o ≡ some temp → name ≡ temp
free_name-eq-some name temp none e = some_injective e
free_name-eq-some name temp (some content) e = cc

free_name-none : (name temp : Bytes) (o : Option Bytes) → free_name name o ≡ some temp → o ≡ none
free_name-none name temp none e = refl
free_name-none name temp (some content) e = cc

pub free_name-new :
    (there : Bytes → Option Bytes) (name temp : Bytes)
    → free_name name (there name) ≡ some temp
    → there temp ≡ none
free_name-new there name temp e =
    subst (λ x. there x ≡ none) (free_name-eq-some name temp (there name) e)
      (free_name-none name temp (there name) e)

abbrev pub temp_name : Bytes
temp_name = b't' ∷ []

abbrev pub empty_disk : Disk
empty_disk = record {
  files = λ p. none;
  create_temp = λ there. free_name temp_name (there temp_name);
  create_temp-new = λ there temp e. free_name-new there temp_name temp e;
  write_ok = λ i. true;
  close_ok = true;
  rename_ok = true;
  remove_ok = true;
}
