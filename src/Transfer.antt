-- ===== src/Transfer.antt =====
-- internal/transfer: files sent and received by their SHA-256.
pub mod Delivery
pub mod Received
pub mod Samples
mod Tests
use kin.Base.{
  ℕ, zero, suc, ◌≡◌, Bool, true, false, not, Option, none, some, List, [], ◌∷◌, ◌++◌, if◌then◌else◌,
  Bytes, eqb, Result, ok, err,
}
use kin.Base.Ints.{ℤ}
use kin.Messages.{
  Message, file_request, file_response, file_chunk, catalog_offer, catalog_ack, error_message,
  other,
}

-- What the calls of `f.Read` on an open file give: some bytes, and at the end io.EOF or an error
-- of its own, with or without bytes.
pub data Reads : Type 0 where
  more : Bytes → Reads → Reads
  ends : Bytes → Reads
  breaks : Bytes → Reads

-- The file system and SHA-256, as the package uses them.
pub record Host : Type 0 where
  pub sha256 : Bytes → Bytes
  pub read_file : Bytes → Option Bytes
  pub stat : Bytes → Option ℤ
  pub open_file : Bytes → Option Reads
  pub dest_path : Bytes → Bytes → Bytes

pub data SendError : Type 0 where
  response_failed open_failed send_cancelled chunk_failed read_failed : SendError

pub data RecvError : Type 0 where
  request_failed no_response bad_response not_found no_temp recv_cancelled : RecvError
  no_chunk bad_chunk write_failed close_failed hash_mismatch rename_failed : RecvError

-- `LocalIndex`: hash to path.
pub record LocalIndex : Type 0 where
  pub index : Bytes → Option Bytes

unfoldable pub new_local_index : LocalIndex
new_local_index = record { index = λ h. none }

unfoldable pub add_with_hash : Bytes → Bytes → LocalIndex → LocalIndex
add_with_hash hash path idx = record { index = λ h. if eqb hash h then some path else idx.index h }

unfoldable pub remove : Bytes → LocalIndex → LocalIndex
remove hash idx = record { index = λ h. if eqb hash h then none else idx.index h }

unfoldable pub lookup : LocalIndex → Bytes → Option Bytes
lookup idx hash = idx.index hash

-- A connection that takes `room` more messages and then fails.
pub record Link : Type 0 where
  pub sent : List Message
  pub room : ℕ

unfoldable pub send : Message → Link → Bool × Link
send m w = elim w.room [
  | zero ↦ (false, w)
  | suc n ↦ (true, record { sent = w.sent ++ m ∷ []; room = n })
]

pub is_empty : Bytes → Bool
is_empty [] = true
is_empty (b ∷ bs) = false

-- What follows a `Send`: on, or out with an error.
abbrev pub on_sent :
    {E A : Type 0} → Bool × Link → E → (Link → Result E A × Link) → Result E A × Link
on_sent (true, w) e next = next w
on_sent (false, w) e next = (err e, w)

-- The loop of `HandleRequest`: `cancelled i` is what the `i`-th look at the context finds.
pub stream : Bytes → (ℕ → Bool) → ℕ → Reads → Link → Result SendError (Unit {0}) × Link
unfolding is_empty send
stream id cancelled i (more bytes rest) w =
    if cancelled i
    then (err send_cancelled, w)
    else if is_empty bytes
    then stream id cancelled (suc i) rest w
    else on_sent (send (file_chunk id bytes false) w) chunk_failed
        (stream id cancelled (suc i) rest)
stream id cancelled i (ends bytes) w =
    if cancelled i
    then (err send_cancelled, w)
    else on_sent (send (file_chunk id bytes true) w) chunk_failed (λ w'. (ok tt, w'))
stream id cancelled i (breaks bytes) w =
    if cancelled i
    then (err send_cancelled, w)
    else if is_empty bytes
    then (err read_failed, w)
    else on_sent (send (file_chunk id bytes false) w) chunk_failed (λ w'. (err read_failed, w'))

-- The file that is being received, and where it goes. `files` is what the directory holds.
-- `create_temp` is os.CreateTemp: it fails, or makes up a name that no file has.
pub record Disk : Type 0 where
  pub files : Bytes → Option Bytes
  pub create_temp : (Bytes → Option Bytes) → Option Bytes
  pub create_temp-new :
      (there : Bytes → Option Bytes) (temp : Bytes)
      → create_temp there ≡ some temp
      → there temp ≡ none
  pub write_ok : ℕ → Bool
  pub close_ok : Bool
  pub rename_ok : Bool
  pub remove_ok : Bool

-- A file that is written, os.Rename and os.Remove, in a directory.
abbrev pub put_file : Bytes → Bytes → (Bytes → Option Bytes) → Bytes → Option Bytes
put_file path content files p = if eqb path p then some content else files p

abbrev pub moved : Bytes → Bytes → (Bytes → Option Bytes) → Bytes → Option Bytes
moved old new files p = if eqb new p then files old else if eqb old p then none else files p

abbrev pub removed : Bytes → (Bytes → Option Bytes) → Bytes → Option Bytes
removed path files p = if eqb path p then none else files p

-- The loop of `RequestFile` at its `i`-th turn, `acc` being in the temporary file. An error comes with
-- what is then in it; a write that fails is taken to add nothing.
pub receive : (ℕ → Bool) → (ℕ → Bool) → ℕ → Bytes → List Message → Result (RecvError × Bytes) Bytes
unfolding is_empty
receive cancelled write_ok i acc [] =
    if cancelled i then err (recv_cancelled, acc) else err (no_chunk, acc)
receive cancelled write_ok i acc (file_chunk id bytes eof ∷ ms) =
    let rest = receive cancelled write_ok (suc i) (acc ++ bytes) ms in
    let next = if eof then ok (acc ++ bytes) else rest in
    if cancelled i
    then err (recv_cancelled, acc)
    else if is_empty bytes
    then next
    else if write_ok i
    then next
    else err (write_failed, acc)
receive cancelled write_ok i acc (file_request id ∷ ms) =
    if cancelled i then err (recv_cancelled, acc) else err (bad_chunk, acc)
receive cancelled write_ok i acc (file_response id size missing ∷ ms) =
    if cancelled i then err (recv_cancelled, acc) else err (bad_chunk, acc)
receive cancelled write_ok i acc (catalog_offer files ∷ ms) =
    if cancelled i then err (recv_cancelled, acc) else err (bad_chunk, acc)
receive cancelled write_ok i acc (catalog_ack n ∷ ms) =
    if cancelled i then err (recv_cancelled, acc) else err (bad_chunk, acc)
receive cancelled write_ok i acc (error_message code text ∷ ms) =
    if cancelled i then err (recv_cancelled, acc) else err (bad_chunk, acc)
receive cancelled write_ok i acc (other ∷ ms) =
    if cancelled i then err (recv_cancelled, acc) else err (bad_chunk, acc)

module _ (host : Host) where
  open host use {sha256, read_file, stat, open_file, dest_path}

  -- `hashFile`
  unfoldable pub hash_file : Bytes → Option Bytes
  hash_file path = elim (read_file path) [ none ↦ none | some content ↦ some (sha256 content) ]

  -- `Add`: false stands for the error of a file that cannot be read.
  unfoldable pub add : Bytes → LocalIndex → Bool × LocalIndex
  unfolding hash_file add_with_hash
  add path idx = elim (hash_file path) [
    | none ↦ (false, idx)
    | some hash ↦ (true, add_with_hash hash path idx)
  ]

  pub send_not_found : Bytes → Link → Result SendError (Unit {0}) × Link
  unfolding send
  send_not_found id w =
      on_sent (send (file_response id (ℤ.pos 0) true) w) response_failed (λ w'. (ok tt, w'))

  -- What `HandleRequest` does once the file has answered to `os.Stat`.
  pub send_file : Bytes → Bytes → ℤ → (ℕ → Bool) → Link → Result SendError (Unit {0}) × Link
  unfolding stream send
  send_file id path size cancelled w =
      on_sent (send (file_response id size false) w) response_failed (λ w'. elim (open_file path) [
        | none ↦ (err open_failed, w')
        | some reads ↦ stream id cancelled 0 reads w'
      ])

  pub send_found : Bytes → Option Bytes → (ℕ → Bool) → Link → Result SendError (Unit {0}) × Link
  unfolding send_file send_not_found
  send_found id none cancelled w = send_not_found id w
  send_found id (some path) cancelled w = elim (stat path) [
    | none ↦ send_not_found id w
    | some size ↦ send_file id path size cancelled w
  ]

  -- `HandleRequest`
  unfoldable pub handle_request :
      LocalIndex → (ℕ → Bool) → Bytes → Link → Result SendError (Unit {0}) × Link
  unfolding send_found lookup
  handle_request idx cancelled id w = send_found id (lookup idx id) cancelled w

  -- The end of `RequestFile`: `content` is in the temporary file.
  pub finish : Bytes → Bytes → Bytes → Bytes → Disk → Result RecvError Bytes × Disk
  finish id dir temp content d =
      let path = dest_path dir id in
      if not d.close_ok
      then (err close_failed, d)
      else if not (eqb (sha256 content) id)
      then (err hash_mismatch, d)
      else if not d.rename_ok
      then (err rename_failed, d)
      else (ok path, record d { files = moved temp path d.files })

  -- What the loop has made of the temporary file, and the end.
  pub receive_to :
      Bytes
      → Bytes
      → Bytes
      → Result (RecvError × Bytes) Bytes
      → Disk
      → Result RecvError Bytes × Disk
  unfolding finish
  receive_to id dir temp (err (e, content)) d =
      (err e, record d { files = put_file temp content d.files })
  receive_to id dir temp (ok content) d =
      finish id dir temp content (record d { files = put_file temp content d.files })

  -- The deferred `os.Remove` of the temporary file, whose error is ignored.
  abbrev pub clean_up : Bytes → Result RecvError Bytes × Disk → Result RecvError Bytes × Disk
  clean_up temp (r, d) = (r, if d.remove_ok then record d { files = removed temp d.files } else d)

  -- `RequestFile` from its `os.CreateTemp` on.
  pub receive_temp :
      Bytes
      → Bytes
      → (ℕ → Bool)
      → List Message
      → Option Bytes
      → Disk
      → Result RecvError Bytes × Disk
  unfolding receive receive_to
  receive_temp id dir cancelled ms none d = (err no_temp, d)
  receive_temp id dir cancelled ms (some temp) d =
      clean_up temp (receive_to id dir temp (receive cancelled d.write_ok 0 [] ms) d)

  -- `RequestFile` behind its request, on the messages that come in.
  pub receive_file :
      Bytes → Bytes → (ℕ → Bool) → List Message → Disk → Result RecvError Bytes × Disk
  unfolding receive_temp
  receive_file id dir cancelled [] d = (err no_response, d)
  receive_file id dir cancelled (file_response rid size missing ∷ ms) d =
      if missing
      then (err not_found, d)
      else receive_temp id dir cancelled ms (d.create_temp d.files) d
  receive_file id dir cancelled (file_request rid ∷ ms) d = (err bad_response, d)
  receive_file id dir cancelled (file_chunk rid bytes eof ∷ ms) d = (err bad_response, d)
  receive_file id dir cancelled (catalog_offer files ∷ ms) d = (err bad_response, d)
  receive_file id dir cancelled (catalog_ack n ∷ ms) d = (err bad_response, d)
  receive_file id dir cancelled (error_message code text ∷ ms) d = (err bad_response, d)
  receive_file id dir cancelled (other ∷ ms) d = (err bad_response, d)

  -- `RequestFile`: `incoming` is what the peer sends after the request.
  unfoldable pub request_file :
      Bytes
      → Bytes
      → (ℕ → Bool)
      → List Message
      → Link
      → Disk
      → (Result RecvError Bytes × Disk) × Link
  unfolding send receive_file
  request_file id dir cancelled incoming w d =
      let (sent, w') = send (file_request id) w in
      if sent then (receive_file id dir cancelled incoming d, w') else ((err request_failed, d), w')
