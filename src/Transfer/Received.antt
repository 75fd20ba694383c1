-- ===== src/Transfer/Received.antt =====
-- What a download leaves in the directory, whatever the peer sends.
use kin.Base.{
  ℕ, suc, ◌≡◌, refl, sym, ap, ◌∙◌, ◌⊎◌, inl, inr, Bool, true, false, not, Option, none, some, List,
  [], ◌∷◌, ◌++◌, append_assoc, if◌then◌else◌, arith, Bytes, eqb, eqb_iff, Bool-cases, Result, ok,
  err, ok_injective,
}
use kin.Base.Ints.{ℤ}
use kin.Messages.{
  Message, file_request, file_response, file_chunk, catalog_offer, catalog_ack, error_message,
  other,
}
use kin.Transfer.{
  Host, Link, send, request_file, RecvError, recv_cancelled, write_failed, close_failed,
  hash_mismatch, rename_failed, Disk, put_file, moved, removed, is_empty, receive, finish,
  receive_to, clean_up, receive_temp, receive_file,
}

abbrev pub prepend : Bytes → Option Bytes → Option Bytes
prepend acc none = none
prepend acc (some bytes) = some (acc ++ bytes)

-- The file that chunks make up, if only chunks come up to the one that is marked as the last.
pub body : List Message → Option Bytes
body [] = none
body (file_chunk id bytes eof ∷ ms) = if eof then some bytes else prepend bytes (body ms)
body (file_request id ∷ ms) = none
body (file_response id size missing ∷ ms) = none
body (catalog_offer files ∷ ms) = none
body (catalog_ack n ∷ ms) = none
body (error_message code text ∷ ms) = none
body (other ∷ ms) = none

prepend-prepend :
    (xs ys : Bytes) (o : Option Bytes) → prepend xs (prepend ys o) ≡ prepend (xs ++ ys) o
prepend-prepend xs ys none = refl
prepend-prepend xs ys (some zs) = ap some (sym (append_assoc xs ys zs))

-- A turn of the loop that goes on has met none of the guards.
passed :
    (c e w : Bool) (acc : Bytes) (next : Result (RecvError × Bytes) Bytes) (content : Bytes)
    → (if c
        then err (recv_cancelled, acc)
        else if e
        then next
        else if w
        then next
        else err (write_failed, acc))
      ≡ ok content
    → next ≡ ok content
passed true e w acc next content h = cc
passed false true w acc next content h = h
passed false false true acc next content h = h
passed false false false acc next content h = cc

receive-eq-ok :
    (cancelled write_ok : ℕ → Bool) (i : ℕ) (acc : Bytes) (ms : List Message) (content : Bytes)
    → receive cancelled write_ok i acc ms ≡ ok content
    → prepend acc (body ms) ≡ some content
unfolding receive body
receive-eq-ok cancelled write_ok i acc [] content h = ground arith
receive-eq-ok cancelled write_ok i acc (file_chunk id bytes eof ∷ ms) content h =
    let next = passed (cancelled i) (is_empty bytes) (write_ok i) acc _ content h in
    elim (Bool-cases eof) [
      | inl t ↦ rw t (ap some (ok_injective {E = RecvError × Bytes} refl (rw t at next)))
      | inr f ↦ rw f (
          prepend-prepend acc bytes (body ms)
          ∙ receive-eq-ok cancelled write_ok (suc i) (acc ++ bytes) ms content (rw f at next))
    ]
receive-eq-ok cancelled write_ok i acc (file_request id ∷ ms) content h = ground arith
receive-eq-ok cancelled write_ok i acc (file_response id size missing ∷ ms) content h = ground arith
receive-eq-ok cancelled write_ok i acc (catalog_offer files ∷ ms) content h = ground arith
receive-eq-ok cancelled write_ok i acc (catalog_ack n ∷ ms) content h = ground arith
receive-eq-ok cancelled write_ok i acc (error_message code text ∷ ms) content h = ground arith
receive-eq-ok cancelled write_ok i acc (other ∷ ms) content h = ground arith

prepend-nil : (o : Option Bytes) → prepend [] o ≡ o
prepend-nil none = refl
prepend-nil (some xs) = refl

body_whole :
    (cancelled write_ok : ℕ → Bool) (ms : List Message) (content : Bytes)
    → receive cancelled write_ok 0 [] ms ≡ ok content
    → body ms ≡ some content
body_whole cancelled write_ok ms content h =
    sym (prepend-nil (body ms)) ∙ receive-eq-ok cancelled write_ok 0 [] ms content h

-- The directory is as it was, or has the temporary file more, which could not be removed.
abbrev pub LeftTemp : Disk → Disk → Type 0
LeftTemp d d' =
    (d.remove_ok ≡ false)
    × (temp : Bytes) × (content : Bytes) × (d.create_temp d.files ≡ some temp)
    × ((p : Bytes) → d'.files p ≡ put_file temp content d.files p)

abbrev pub IsUndone : Disk → Disk → Type 0
IsUndone d d' = ((p : Bytes) → d'.files p ≡ d.files p) ⊎ LeftTemp d d'

undone : (d : Disk) → IsUndone d d
undone d = inl (λ p. refl)

-- Removing a file that was not there before undoes whatever was written to it.
removed-put_file :
    (temp content : Bytes) (files : Bytes → Option Bytes) (p : Bytes)
    → files temp ≡ none
    → removed temp (put_file temp content files) p ≡ files p
removed-put_file temp content files p new = elim (Bool-cases (eqb temp p)) [
  | inl t ↦ rw t (sym (ap files (sym ((eqb_iff temp p).0 t)) ∙ new))
  | inr f ↦ rw f refl
]

-- A new file that is moved is a file at the apart path.
pub moved-put_file :
    (temp path content : Bytes) (files : Bytes → Option Bytes) (p : Bytes)
    → files temp ≡ none
    → moved temp path (put_file temp content files) p ≡ put_file path content files p
moved-put_file temp path content files p new = elim (Bool-cases (eqb path p)) [
  | inl t ↦ rw (t, (eqb_iff temp temp).1 refl) refl
  | inr f ↦ rw f (removed-put_file temp content files p new)
]

-- Removing a file that is not there.
pub removed-moved :
    (temp path content : Bytes) (files : Bytes → Option Bytes) (p : Bytes)
    → files temp ≡ none
    → eqb path temp ≡ false
    → removed temp (moved temp path (put_file temp content files)) p ≡ put_file path content files p
removed-moved temp path content files p new apart = elim (Bool-cases (eqb temp p)) [
  | inl t ↦ let same : temp ≡ p = (eqb_iff temp p).0 t in rw (t, sym same, apart) (sym new)
  | inr f ↦ let m = moved-put_file temp path content files p new in rw f (rw f at m)
]

not-eq-false : (b : Bool) → not b ≡ false → b ≡ true
not-eq-false true h = refl
not-eq-false false h = cc

pub either :
    {A : Type 0} (P : A → Type 0) (b : Bool) (x y : A)
    → (b ≡ true → P x)
    → (b ≡ false → P y)
    → P (if b then x else y)
either P true x y f g = f refl
either P false x y f g = g refl

clean_up-err :
    (host : Host) (e : RecvError) (temp content : Bytes) (d : Disk)
    → d.create_temp d.files ≡ some temp
    → IsUndone d (clean_up host temp (err e, record d { files = put_file temp content d.files })).1
clean_up-err host e temp content d c =
    either (IsUndone d) d.remove_ok _ _
      (λ t. inl (λ p. removed-put_file temp content d.files p (d.create_temp-new d.files temp c)))
      (λ f. inr (f, temp, content, c, λ p. refl))

module _ (host : Host) where
  open host use {sha256, dest_path}

  -- What has become of the directory, by the result of the download.
  abbrev pub Left : Bytes → Bytes → List Message → Disk → Result RecvError Bytes → Disk → Type 0
  Left id dir incoming d (ok path) d' =
      (rid : Bytes) × (size : ℤ) × (ms : List Message) × (content : Bytes) × (incoming
        ≡ file_response rid size false ∷ ms)
      × (body ms ≡ some content)
      × (sha256 content ≡ id)
      × (path ≡ dest_path dir id)
      × ((p : Bytes) → d'.files p ≡ (if eqb path p then some content else d.files p))
      × (d' ≡ record d { files = d'.files })
  Left id dir incoming d (err e) d' = IsUndone d d' × (d' ≡ record d { files = d'.files })

  abbrev LeftBy : Bytes → Bytes → List Message → Disk → Result RecvError Bytes × Disk → Type 0
  LeftBy id dir incoming d out = Left id dir incoming d out.0 out.1

  cleaned-err :
      (id dir temp content : Bytes) (incoming : List Message) (e : RecvError) (d : Disk)
      → d.create_temp d.files ≡ some temp
      → LeftBy id dir incoming d
          (clean_up host temp (err e, record d { files = put_file temp content d.files }))
  cleaned-err id dir temp content incoming e d c = (
    clean_up-err host e temp content d c,
    either (λ (d' : Disk). d' ≡ record d { files = d'.files }) d.remove_ok _ _ (λ t. refl)
        (λ f. refl),
  )

  cleaned-ok :
      (id dir temp rid : Bytes) (size : ℤ) (ms : List Message) (content : Bytes) (d : Disk)
      → body ms ≡ some content
      → sha256 content ≡ id
      → d.create_temp d.files ≡ some temp
      → eqb (dest_path dir id) temp ≡ false
      → LeftBy id dir (file_response rid size false ∷ ms) d (
          clean_up host temp (
            ok (dest_path dir id),
            record d { files = moved temp (dest_path dir id) (put_file temp content d.files) },
          ))
  cleaned-ok id dir temp rid size ms content d b sh c apart =
      let new = d.create_temp-new d.files temp c in
      (
        rid,
        size,
        ms,
        content,
        refl,
        b,
        sh,
        refl,
        λ p.
            either
              (λ (d' : Disk).
                d'.files p ≡ (if eqb (dest_path dir id) p then some content else d.files p))
              d.remove_ok _ _
              (λ t. removed-moved temp (dest_path dir id) content d.files p new apart)
              (λ f. moved-put_file temp (dest_path dir id) content d.files p new),
        either (λ (d' : Disk). d' ≡ record d { files = d'.files }) d.remove_ok _ _ (λ t. refl)
            (λ f. refl),
      )

  finish-Left :
      (id dir temp rid : Bytes) (size : ℤ) (ms : List Message) (content : Bytes) (d : Disk)
      → body ms ≡ some content
      → d.create_temp d.files ≡ some temp
      → eqb (dest_path dir id) temp ≡ false
      → LeftBy id dir (file_response rid size false ∷ ms) d (
          clean_up host temp
            (finish host id dir temp content (record d { files = put_file temp content d.files })))
  unfolding finish
  finish-Left id dir temp rid size ms content d b c apart =
      let incoming = file_response rid size false ∷ ms in
      let P : Result RecvError Bytes × Disk → Type 0 =
        λ out. LeftBy id dir incoming d (clean_up host temp out) in
      either P (not d.close_ok) _ _ (λ f. cleaned-err id dir temp content incoming close_failed d c)
        (λ t.
          either P (not (eqb (sha256 content) id)) _ _
            (λ f. cleaned-err id dir temp content incoming hash_mismatch d c)
            (λ e.
              either P (not d.rename_ok) _ _
                (λ f. cleaned-err id dir temp content incoming rename_failed d c)
                (λ r.
                  cleaned-ok id dir temp rid size ms content d b
                    ((eqb_iff (sha256 content) id).0 (not-eq-false _ e)) c apart)))

  received :
      (id dir temp rid : Bytes) (size : ℤ) (ms : List Message) (d : Disk)
      (r : Result (RecvError × Bytes) Bytes)
      → ((content : Bytes) → r ≡ ok content → body ms ≡ some content)
      → d.create_temp d.files ≡ some temp
      → eqb (dest_path dir id) temp ≡ false
      → LeftBy id dir
          (file_response rid size false ∷ ms)
          d
          (clean_up host temp (receive_to host id dir temp r d))
  unfolding receive_to
  received id dir temp rid size ms d (err (e, content)) k c apart =
      cleaned-err id dir temp content (file_response rid size false ∷ ms) e d c
  received id dir temp rid size ms d (ok content) k c apart =
      finish-Left id dir temp rid size ms content d (k content refl) c apart

  receive_temp-Left :
      (id dir rid : Bytes) (size : ℤ) (cancelled : ℕ → Bool) (ms : List Message) (d : Disk)
      (o : Option Bytes)
      → d.create_temp d.files ≡ o
      → ((temp : Bytes) → o ≡ some temp → eqb (dest_path dir id) temp ≡ false)
      → LeftBy id dir
          (file_response rid size false ∷ ms)
          d
          (receive_temp host id dir cancelled ms o d)
  unfolding receive_temp
  receive_temp-Left id dir rid size cancelled ms d none c apart = (undone d, refl)
  receive_temp-Left id dir rid size cancelled ms d (some temp) c apart =
      received id dir temp rid size ms d (receive cancelled d.write_ok 0 [] ms)
        (λ content e. body_whole cancelled d.write_ok ms content e) c (apart temp refl)

  -- The names that os.CreateTemp makes up are not the one that is named by the id.
  abbrev pub IsApart : Bytes → Bytes → Disk → Type 0
  IsApart id dir d =
      (there : Bytes → Option Bytes) (temp : Bytes)
      → d.create_temp there ≡ some temp
      → eqb (dest_path dir id) temp ≡ false

  -- Whatever the peer sends and wherever the download stops, where the names of temporary files are
  -- not the one named by the id: with an error the directory is as it was, or the temporary file
  -- could not be removed, and the directory has it more, under a name that no file had. With a path,
  -- the peer sent a response and chunks up to the last one, the file stands at that path, which is
  -- the one named by its id, it is what the chunks make up and its SHA-256 is the id that was asked
  -- for; the apart files are as before, and no temporary file is left.
  pub receive_file-Left :
      (id dir : Bytes) (cancelled : ℕ → Bool) (incoming : List Message) (d : Disk)
      → IsApart id dir d
      → Left id dir incoming d
          (receive_file host id dir cancelled incoming d).0
          (receive_file host id dir cancelled incoming d).1
  unfolding receive_file
  receive_file-Left id dir cancelled [] d apart = (undone d, refl)
  receive_file-Left id dir cancelled (file_response rid size missing ∷ ms) d apart =
      elim (Bool-cases missing) [
        | inl t ↦ rw t (undone d, refl)
        | inr f ↦ rw f (
            receive_temp-Left id dir rid size cancelled ms d (d.create_temp d.files) refl
              (λ temp e. apart d.files temp e))
      ]
  receive_file-Left id dir cancelled (file_request rid ∷ ms) d apart = (undone d, refl)
  receive_file-Left id dir cancelled (file_chunk rid bytes eof ∷ ms) d apart = (undone d, refl)
  receive_file-Left id dir cancelled (catalog_offer files ∷ ms) d apart = (undone d, refl)
  receive_file-Left id dir cancelled (catalog_ack n ∷ ms) d apart = (undone d, refl)
  receive_file-Left id dir cancelled (error_message code text ∷ ms) d apart = (undone d, refl)
  receive_file-Left id dir cancelled (other ∷ ms) d apart = (undone d, refl)

  -- The same of `RequestFile` with its request.
  pub request_file-Left :
      (id dir : Bytes) (cancelled : ℕ → Bool) (incoming : List Message) (w : Link) (d : Disk)
      → IsApart id dir d
      → Left id dir incoming d
          (request_file host id dir cancelled incoming w d).0.0
          (request_file host id dir cancelled incoming w d).0.1
  unfolding request_file
  request_file-Left id dir cancelled incoming w d apart =
      elim (Bool-cases (send (file_request id) w).0) [
        | inl t ↦ rw t (receive_file-Left id dir cancelled incoming d apart)
        | inr f ↦ rw f (undone d, refl)
      ]
