-- ===== src/Transfer/Tests.antt =====
-- A small host on which files are sent and received, and the theorems at concrete inputs.
use mathlib.Core.Path.{subst}
use kin.Base.{
  ℕ, ◌≡◌, refl, Bool, true, false, some, none, List, [], ◌∷◌, ◌++◌, arith, if◌then◌else◌, Bytes,
  eqb, Result, ok, err,
}
use kin.Base.Ints.{pos}
use kin.Messages.{Message, file_response, file_chunk}
use kin.Transfer.{
  more, ends, Host, RecvError, hash_mismatch, LocalIndex, new_local_index, add_with_hash, remove,
  lookup, add, hash_file, Link, Disk, receive, finish, is_empty, receive_to, receive_temp,
  receive_file, request_file, handle_request,
}
use kin.Transfer.Samples.{free_name-eq-some, temp_name, empty_disk}
use kin.Transfer.Received.{Left, IsApart, receive_file-Left}
use kin.Transfer.Delivery.{chunks, contents, is_whole, request-delivered}

-- Its hash is the file itself, and every file has the two bytes 7 and 8.
abbrev host : Host
host = record {
  sha256 = λ bytes. bytes;
  read_file = λ path. some (7 ∷ 8 ∷ []);
  stat = λ path. some (pos 2);
  open_file = λ path. some (more (7 ∷ []) (more [] (ends (8 ∷ []))));
  dest_path = λ dir id. dir ++ id;
}

abbrev id : Bytes
id = 7 ∷ 8 ∷ []

abbrev never : ℕ → Bool
never i = false

abbrev disk : Disk
disk = empty_disk

-- A file that was added is found under its hash, until it is removed.
abbrev indexed : LocalIndex
indexed = (add host (b'p' ∷ []) new_local_index).1

lookup_run : (lookup indexed id ≡ some (b'p' ∷ [])) × (lookup (remove id indexed) id ≡ none)
unfolding lookup remove add hash_file add_with_hash eqb
lookup_run = (refl, refl)

-- What the peer sends has another hash; where it cannot be removed, the temporary file stays.
abbrev sent_wrong : Disk → (Result RecvError Bytes × Disk) × Link
sent_wrong d =
    request_file host id [] never
      (file_response id (pos 2) false ∷ file_chunk id (9 ∷ []) true ∷ [])
      (record { sent = []; room = 1 }) d

request_file_run :
    ((sent_wrong disk).0.0 ≡ err hash_mismatch)
    × ((sent_wrong disk).0.1.files temp_name ≡ none)
    × ((sent_wrong (record disk { remove_ok = false })).0.1.files temp_name ≡ some (9 ∷ []))
unfolding request_file receive_file receive_temp receive receive_to finish is_empty eqb
request_file_run = (refl, refl, refl)

request-delivered_example :
    (ms : List Message) × (w : Link) × (handle_request host indexed never id
        (record { sent = []; room = 3 })
      ≡ (ok tt, w))
    × (w.sent ≡ ms)
    × (receive_file host id (b'd' ∷ []) never ms disk ≡ (
      ok (b'd' ∷ id),
      record disk { files = λ p. if eqb (b'd' ∷ id) p then some id else none },
    ))
unfolding chunks contents is_whole is_empty eqb
request-delivered_example =
    request-delivered host indexed id (b'd' ∷ []) (b'p' ∷ []) temp_name (pos 2)
      (more (7 ∷ []) (more [] (ends (8 ∷ [])))) never [] 3 disk lookup_run.0 refl refl refl refl
      (λ j. refl) (omega arith) refl refl (λ j. refl) refl refl

apart : IsApart host id [] disk
unfolding eqb
apart there temp e =
    subst (λ x. eqb id x ≡ false) (free_name-eq-some temp_name temp (there temp_name) e) refl

receive_file-Left_example :
    Left host id []
      (file_response id (pos 2) false ∷ file_chunk id id true ∷ [])
      disk
      (receive_file host id [] never
        (file_response id (pos 2) false ∷ file_chunk id id true ∷ [])
        disk).0
      (receive_file host id [] never
        (file_response id (pos 2) false ∷ file_chunk id id true ∷ [])
        disk).1
receive_file-Left_example =
    receive_file-Left host id [] never (file_response id (pos 2) false ∷ file_chunk id id true ∷ [])
      disk apart
