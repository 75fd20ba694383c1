-- ===== src/Transfer/Delivery.antt =====
-- A file on its way from the sender to the receiver.
use std.Path.{fun_ext}
use kin.Base.{
  ℕ, suc, ◌+◌, ◌-◌, ◌≤◌, ◌≡◌, refl, sym, ap, ◌∙◌, inl, inr, Bool, true, false, not, some, List, [],
  ◌∷◌, ◌++◌, append_assoc, if◌then◌else◌, arith, length, Bytes, eqb, eqb_iff, Bool-cases, ok,
}
use kin.Base.Ints.{ℤ}
use kin.Transfer.Received.{either, moved-put_file, removed-moved}
use kin.Messages.{Message, file_response, file_chunk}
use kin.Transfer.{
  Reads, more, ends, breaks, Host, LocalIndex, lookup, Link, Disk, is_empty, send, stream, receive,
  put_file, moved, finish, receive_to, clean_up, receive_temp, receive_file, handle_request,
  send_found, send_file,
}

-- The bytes of a file, and whether it can be read to its end.
unfoldable pub contents : Reads → Bytes
contents (more bytes rest) = bytes ++ contents rest
contents (ends bytes) = bytes
contents (breaks bytes) = bytes

unfoldable pub is_whole : Reads → Bool
is_whole (more bytes rest) = is_whole rest
is_whole (ends bytes) = true
is_whole (breaks bytes) = false

-- The chunks that a file is sent in: one for each read that gives bytes, and the last one.
unfoldable pub chunks : Bytes → Reads → List Message
chunks id (more bytes rest) =
    if is_empty bytes then chunks id rest else file_chunk id bytes false ∷ chunks id rest
chunks id (ends bytes) = file_chunk id bytes true ∷ []
chunks id (breaks bytes) = []

send_fits :
    (m : Message) (q : List Message) (n k : ℕ)
    → n ≡ suc k
    → send m (record { sent = q; room = n }) ≡ (true, record { sent = q ++ m ∷ []; room = k })
unfolding send
send_fits m q n k h = rw h refl

is_empty-nil : (bytes : Bytes) → is_empty bytes ≡ true → bytes ≡ []
unfolding is_empty
is_empty-nil [] h = refl
is_empty-nil (b ∷ bytes) h = cc

-- A file that can be read to its end goes over a link with room for its chunks.
stream-chunks :
    (id : Bytes) (cancelled : ℕ → Bool) (i : ℕ) (reads : Reads) (q : List Message) (n k : ℕ)
    → ((j : ℕ) → cancelled j ≡ false)
    → is_whole reads ≡ true
    → n ≡ length (chunks id reads) + k
    → stream id cancelled i reads (record { sent = q; room = n })
      ≡ (ok tt, record { sent = q ++ chunks id reads; room = k })
unfolding stream chunks is_whole
stream-chunks id cancelled i (more bytes rest) q n k c w h = elim (Bool-cases (is_empty bytes)) [
  | inl t ↦ rw (c i, t) (stream-chunks id cancelled (suc i) rest q n k c w (rw t at h))
  | inr f ↦
      let chunk = file_chunk id bytes false in
      let m = length (chunks id rest) + k in
      let room : n ≡ suc m = rw f at h ∙ omega arith in
      rw (c i, f, send_fits chunk q n m room)
        (stream-chunks id cancelled (suc i) rest (q ++ chunk ∷ []) m k c w refl
          ∙ ap (λ x. (ok tt, record { sent = x; room = k }))
              (append_assoc q (chunk ∷ []) (chunks id rest)))
]
stream-chunks id cancelled i (ends bytes) q n k c w h =
    rw (c i, send_fits (file_chunk id bytes true) q n k (h ∙ omega arith)) refl
stream-chunks id cancelled i (breaks bytes) q n k c w h = cc

-- Chunks received in order are put together to the file.
receive-chunks :
    (id : Bytes) (cancelled write_ok : ℕ → Bool) (i : ℕ) (acc : Bytes) (reads : Reads)
    → ((j : ℕ) → cancelled j ≡ false)
    → ((j : ℕ) → write_ok j ≡ true)
    → is_whole reads ≡ true
    → receive cancelled write_ok i acc (chunks id reads) ≡ ok (acc ++ contents reads)
unfolding receive chunks contents is_whole
receive-chunks id cancelled write_ok i acc (more bytes rest) c o w =
    elim (Bool-cases (is_empty bytes)) [
      | inl t ↦ rw t (
          receive-chunks id cancelled write_ok i acc rest c o w
          ∙ ap (λ x. ok (acc ++ (x ++ contents rest))) (sym (is_empty-nil bytes t)))
      | inr f ↦
          rw (f, c i, f, o i)
            (receive-chunks id cancelled write_ok (suc i) (acc ++ bytes) rest c o w
              ∙ ap ok (append_assoc acc bytes (contents rest)))
    ]
receive-chunks id cancelled write_ok i acc (ends bytes) c o w =
    rw (c i, o i) (elim (Bool-cases (is_empty bytes)) [ inl t ↦ rw t refl | inr f ↦ rw f refl ])
receive-chunks id cancelled write_ok i acc (breaks bytes) c o w = cc

handle_found :
    (host : Host) (idx : LocalIndex) (id path : Bytes) (size : ℤ) (reads : Reads)
    (cancelled : ℕ → Bool) (q : List Message) (n k : ℕ)
    → lookup idx id ≡ some path
    → host.stat path ≡ some size
    → host.open_file path ≡ some reads
    → is_whole reads ≡ true
    → ((j : ℕ) → cancelled j ≡ false)
    → n ≡ suc (length (chunks id reads) + k)
    → handle_request host idx cancelled id (record { sent = q; room = n })
      ≡ (ok tt, record { sent = q ++ file_response id size false ∷ chunks id reads; room = k })
unfolding handle_request send_found send_file
handle_found host idx id path size reads cancelled q n k l st op w c h =
    let response = file_response id size false in
    let m = length (chunks id reads) + k in
    rw (l, send_found, st, send_file, send_fits response q n m h, op)
      (stream-chunks id cancelled 0 reads (q ++ response ∷ []) m k c w refl
        ∙ ap (λ x. (ok tt, record { sent = x; room = k }))
            (append_assoc q (response ∷ []) (chunks id reads)))

passed_by : {A : Type 0} (b : Bool) (x y : A) → b ≡ true → (if not b then x else y) ≡ y
passed_by true x y h = refl
passed_by false x y h = cc

-- The end of a download that goes well.
finish_whole :
    (host : Host) (id dir temp content : Bytes) (d : Disk)
    → host.sha256 content ≡ id
    → d.close_ok ≡ true
    → d.rename_ok ≡ true
    → finish host id dir temp content d ≡ (
      ok (host.dest_path dir id),
      record d { files = moved temp (host.dest_path dir id) d.files },
    )
unfolding finish
finish_whole host id dir temp content d sh cl rn =
    passed_by d.close_ok _ _ cl
    ∙ passed_by (eqb (host.sha256 content) id) _ _ ((eqb_iff (host.sha256 content) id).1 sh)
    ∙ passed_by d.rename_ok _ _ rn

-- A new file that was moved and whose old path was then cleared is a file at the other path.
cleaned_up :
    (host : Host) (temp path content : Bytes) (d : Disk)
    → d.create_temp d.files ≡ some temp
    → eqb path temp ≡ false
    → clean_up host temp
        (ok path, record d { files = moved temp path (put_file temp content d.files) })
      ≡ (ok path, record d { files = put_file path content d.files })
cleaned_up host temp path content d t apart =
    let new = d.create_temp-new d.files temp t in
    ap (λ (x : Disk). (ok path, x))
      (either (λ (x : Disk). x ≡ record d { files = put_file path content d.files }) d.remove_ok _ _
        (λ r.
          ap (λ files. record d { files = files })
            (fun_ext (λ p. removed-moved temp path content d.files p new apart)))
        (λ r.
          ap (λ files. record d { files = files })
            (fun_ext (λ p. moved-put_file temp path content d.files p new))))

receive_whole :
    (host : Host) (id dir rid temp : Bytes) (size : ℤ) (reads : Reads) (cancelled : ℕ → Bool)
    (d : Disk)
    → is_whole reads ≡ true
    → host.sha256 (contents reads) ≡ id
    → ((j : ℕ) → cancelled j ≡ false)
    → d.create_temp d.files ≡ some temp
    → eqb (host.dest_path dir id) temp ≡ false
    → ((j : ℕ) → d.write_ok j ≡ true)
    → d.close_ok ≡ true
    → d.rename_ok ≡ true
    → receive_file host id dir cancelled (file_response rid size false ∷ chunks id reads) d ≡ (
      ok (host.dest_path dir id),
      record d {
        files = λ p. if eqb (host.dest_path dir id) p then some (contents reads) else d.files p;
      },
    )
unfolding receive_file receive_temp receive_to finish
receive_whole host id dir rid temp size reads cancelled d w sh c t apart o cl rn =
    simp (t, receive-chunks id cancelled d.write_ok 0 [] reads c o w)
      (ap (clean_up host temp) (
          finish_whole host id dir temp (contents reads)
            (record d { files = put_file temp (contents reads) d.files }) sh cl rn)
        ∙ cleaned_up host temp (host.dest_path dir id) (contents reads) d t apart)

-- A file that the sender has, that can be read to its end and whose SHA-256 is the id it is asked
-- for, is delivered: over a link with room for a response and the chunks the sender succeeds and
-- adds messages to what it sent before, and a receiver that gets those messages ends with the
-- file under the path named by its id, and with nothing else changed; no context being cancelled,
-- the receiver's disk working, and its temporary file having another name than that path.
pub request-delivered :
    (host : Host) (idx : LocalIndex) (id dir path temp : Bytes) (size : ℤ) (reads : Reads)
    (cancelled : ℕ → Bool) (q : List Message) (n : ℕ) (d : Disk)
    → lookup idx id ≡ some path
    → host.stat path ≡ some size
    → host.open_file path ≡ some reads
    → is_whole reads ≡ true
    → host.sha256 (contents reads) ≡ id
    → ((j : ℕ) → cancelled j ≡ false)
    → 1 + length (chunks id reads) ≤ n
    → d.create_temp d.files ≡ some temp
    → eqb (host.dest_path dir id) temp ≡ false
    → ((j : ℕ) → d.write_ok j ≡ true)
    → d.close_ok ≡ true
    → d.rename_ok ≡ true
    → (ms : List Message) × (w : Link) × (handle_request host idx cancelled id
          (record { sent = q; room = n })
        ≡ (ok tt, w))
      × (w.sent ≡ q ++ ms)
      × (receive_file host id dir cancelled ms d ≡ (
        ok (host.dest_path dir id),
        record d {
          files = λ p. if eqb (host.dest_path dir id) p then some (contents reads) else d.files p;
        },
      ))
request-delivered host idx id dir path temp size reads cancelled q n d l st op w sh c h t apart o cl
      rn =
    (
      file_response id size false ∷ chunks id reads,
      record {
        sent = q ++ file_response id size false ∷ chunks id reads;
        room = n - (1 + length (chunks id reads));
      },
      handle_found host idx id path size reads cancelled q n (n - (1 + length (chunks id reads))) l
          st op w c (omega arith),
      refl,
      receive_whole host id dir id temp size reads cancelled d w sh c t apart o cl rn,
    )
