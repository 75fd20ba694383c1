-- ===== src/Download/Safety.antt =====
-- What a download leaves in the shared directory.
use mathlib.Core.Path.{subst}
use kin.Base.{
  ℕ, suc, ◌+◌, length, ◌≡◌, refl, sym, ap, ◌∙◌, ◌⊎◌, inl, inr, Bool, true, false, ◌||◌, Option,
  none, some, List, [], ◌∷◌, if◌then◌else◌, arith, Bytes, eqb, eqb_iff, Bool-cases, Result, ok, err,
  ok_injective,
}
use kin.Catalog.{Entry, OwnerHint}
use kin.Messages.{Message}
use kin.Transfer.{Host, RecvError, Link, Disk, moved}
use kin.Transfer.Received.{IsUndone, Left, IsApart, request_file-Left}
use kin.Download.{
  Services, DownloadError, State, seen_later, rename_to, rename_found, rename_to_original,
  keep_file, received, dialled, try_owner, download,
}
use kin.Download.Plan.{IsSortOf}
use kin.Download.Attempts.{Failed, AllFailed, download-FirstSuccess}

-- The same files, and nothing else changed.
abbrev pub IsSameDisk : Disk → Disk → Type 0
IsSameDisk d d' = ((p : Bytes) → d'.files p ≡ d.files p) × (d' ≡ record d { files = d'.files })

IsSameDisk-trans : (d d' d'' : Disk) → IsSameDisk d d' → IsSameDisk d' d'' → IsSameDisk d d''
IsSameDisk-trans d d' d'' (f, e) (g, h) =
    (λ p. g p ∙ f p, h ∙ ap (λ (x : Disk). record x { files = d''.files }) e)

undone-IsSameDisk :
    (d d' : Disk)
    → d.remove_ok ≡ true
    → IsUndone d d'
    → d' ≡ record d { files = d'.files }
    → IsSameDisk d d'
undone-IsSameDisk d d' r (inl f) e = (f, e)
undone-IsSameDisk d d' r (inr (n, temp, content, made, files)) e = absurd (not_both d.remove_ok r n)
  where
    not_both : (b : Bool) → b ≡ true → b ≡ false → ⊥
    not_both true r n = cc
    not_both false r n = cc

module _ (services : Services) (host : Host) (shared_dir self_id : Bytes) where
  open services use {get_entry, dial, sort, get_owners}

  -- A file of the wanted hash stands at `path`. If that is not the path named by the hash, os.Stat
  -- gave an error there, when the file stood at that path; nothing but these two paths has changed.
  pub record Kept (id path : Bytes) (d d' : Disk) : Type 0 where
    pub content : Bytes
    pub hash : host.sha256 content ≡ id
    pub there : d'.files path ≡ some content
    pub fresh :
        (path ≡ host.dest_path shared_dir id)
        ⊎ ((seen : Bytes → Option Bytes) × ((p : Bytes)
              → seen p ≡ (if eqb (host.dest_path shared_dir id) p then some content else d.files p))
            × (services.stat_ok path seen ≡ false))
    pub others :
        (p : Bytes)
        → (if eqb path p || eqb (host.dest_path shared_dir id) p then d.files p else d'.files p)
          ≡ d.files p

  -- The received file has its content under the path named by the hash.
  pub record Arrived (id content : Bytes) (d d' : Disk) : Type 0 where
    pub hash : host.sha256 content ≡ id
    pub files :
        (p : Bytes)
        → d'.files p ≡ (if eqb (host.dest_path shared_dir id) p then some content else d.files p)

  stays :
      (id content : Bytes) (d d' : Disk)
      → Arrived id content d d'
      → Kept id (host.dest_path shared_dir id) d d'
  stays id content d d' a = record {
    content = content;
    hash = a.hash;
    there =
        a.files (host.dest_path shared_dir id)
        ∙ rw ((eqb_iff (host.dest_path shared_dir id) (host.dest_path shared_dir id)).1 refl) refl;
    fresh = inl refl;
    others = λ p. ground (arith, a.files p);
  }

  goes :
      (id content target : Bytes) (d d' : Disk)
      → Arrived id content d d'
      → services.stat_ok target d'.files ≡ false
      → Kept id target d
          (record d' { files = moved (host.dest_path shared_dir id) target d'.files })
  goes id content target d d' a e =
      let dest = host.dest_path shared_dir id in
      record {
        content = content;
        hash = a.hash;
        there = ground (arith, a.files dest, eqb_iff target target, eqb_iff dest dest);
        fresh = inr (d'.files, a.files, e);
        others = λ p. ground (arith, a.files p);
      }

  rename_to-Kept :
      (id content name : Bytes) (d d' : Disk)
      → Arrived id content d d'
      → let (path, d'') =
          rename_to services host shared_dir self_id name (host.dest_path shared_dir id) d' in
        Kept id path d d''
  unfolding rename_to
  rename_to-Kept id content name d d' a =
      let safe = services.base name in
      let target = services.join shared_dir safe in
      elim (Bool-cases (eqb safe (b'.' ∷ []) || eqb safe (b'/' ∷ []))) [
        | inl t ↦ rw t (stays id content d d' a)
        | inr f ↦ elim (Bool-cases (services.stat_ok target d'.files)) [
          | inl t ↦ rw (f, t) (stays id content d d' a)
          | inr g ↦ elim (Bool-cases (services.rename_ok (host.dest_path shared_dir id) target)) [
            | inl t ↦ rw (f, g, t) (goes id content target d d' a g)
            | inr h ↦ rw (f, g, h) (stays id content d d' a)
          ]
        ]
      ]

  rename_found-Kept :
      (id content : Bytes) (o : Option Entry) (d d' : Disk)
      → Arrived id content d d'
      → let (path, d'') =
          rename_found services host shared_dir self_id o (host.dest_path shared_dir id) d' in
        Kept id path d d''
  unfolding rename_found
  rename_found-Kept id content none d d' a = stays id content d d' a
  rename_found-Kept id content (some e) d d' a = elim (Bool-cases (eqb e.name [])) [
    | inl t ↦ rw t (stays id content d d' a)
    | inr f ↦ rw f (rename_to-Kept id content e.name d d' a)
  ]

  received-Kept :
      (id owner path : Bytes) (incoming : List Message) (r : Result RecvError Bytes) (d d' : Disk)
      (index : services.Index)
      → Left host id shared_dir incoming d r d'
      → (received services host shared_dir self_id id owner r d' index).0 ≡ ok path
      → Kept id path d (received services host shared_dir self_id id owner r d' index).1.disk
  unfolding keep_file rename_to_original
  received-Kept id owner path incoming (err e) d d' index l h = cc
  received-Kept id owner path incoming (ok dest) d d' index
        (rid, size, ms, content, i, b, hash, at_dest, files, rest) h =
      let arrived : Arrived id content d d' = record {
        hash = hash;
        files = λ p. files p ∙ ap (λ x. if eqb x p then some content else d.files p) at_dest;
      } in
      let kept =
        subst
          (λ x.
            Kept id (rename_found services host shared_dir self_id (get_entry owner id) x d').0 d
              (rename_found services host shared_dir self_id (get_entry owner id) x d').1)
          (sym at_dest) (rename_found-Kept id content (get_entry owner id) d d' arrived) in
      subst
        (λ q. Kept id q d (rename_to_original services host shared_dir self_id id owner dest d').1)
        (ok_injective {E = DownloadError} refl h) kept

  -- Temporary files can be removed, and have names apart from the one named by the id.
  pub record CleansUp (id : Bytes) (d : Disk) : Type 0 where
    pub removes : d.remove_ok ≡ true
    pub apart : IsApart host id shared_dir d

  IsSameDisk-CleansUp :
      (id : Bytes) (d d' : Disk) → IsSameDisk d d' → CleansUp id d → CleansUp id d'
  IsSameDisk-CleansUp id d d' (f, e) c = record {
    removes = ap (λ (x : Disk). x.remove_ok) e ∙ c.removes;
    apart = λ there temp made.
        c.apart there temp (sym (ap (λ (x : Disk). x.create_temp there) e) ∙ made);
  }

  received-Failed :
      (id owner : Bytes) (incoming : List Message) (r : Result RecvError Bytes) (d d' : Disk)
      (index : services.Index)
      → d.remove_ok ≡ true
      → Left host id shared_dir incoming d r d'
      → Failed (received services host shared_dir self_id id owner r d' index).0
      → IsSameDisk d (received services host shared_dir self_id id owner r d' index).1.disk
  unfolding keep_file
  received-Failed id owner incoming (err e) d d' index c (u, rest) f =
      undone-IsSameDisk d d' c u rest
  received-Failed id owner incoming (ok dest) d d' index c l f = absurd f

  dialled-Failed :
      (cancelled : ℕ → Bool) (id owner : Bytes) (o : Option (List Message × Link))
      (s : State services host shared_dir self_id)
      → CleansUp id s.disk
      → Failed (dialled services host shared_dir self_id cancelled id owner o s).0
      → IsSameDisk s.disk (dialled services host shared_dir self_id cancelled id owner o s).1.disk
  dialled-Failed cancelled id owner none s c f = (λ p. refl, refl)
  dialled-Failed cancelled id owner (some (incoming, link)) s c f =
      received-Failed id owner incoming _ s.disk _ s.index c.removes
        (request_file-Left host id shared_dir cancelled incoming link s.disk c.apart) f

  -- An attempt that fails leaves no trace on such a disk.
  try_owner-Failed :
      (cancelled : ℕ → Bool) (id owner : Bytes) (s : State services host shared_dir self_id)
      → CleansUp id s.disk
      → Failed (try_owner services host shared_dir self_id cancelled id owner s).0
      → IsSameDisk s.disk (try_owner services host shared_dir self_id cancelled id owner s).1.disk
  unfolding try_owner
  try_owner-Failed cancelled id owner s c f = dialled-Failed cancelled id owner (dial owner) s c f

  AllFailed-IsSameDisk :
      (cancelled : ℕ → ℕ → Bool) (k : ℕ) (id : Bytes) (os : List OwnerHint)
      (s s' : State services host shared_dir self_id)
      → CleansUp id s.disk
      → AllFailed services host shared_dir self_id cancelled k id os s s'
      → IsSameDisk s.disk s'.disk
  AllFailed-IsSameDisk cancelled k id [] s s' c same =
      subst (λ (x : State services host shared_dir self_id). IsSameDisk s.disk x.disk) (sym same)
        (λ p. refl, refl)
  AllFailed-IsSameDisk cancelled k id (o ∷ os) s s' c (f, rest) =
      let s1 = (try_owner services host shared_dir self_id (cancelled k) id o.node_id s).1 in
      let one = try_owner-Failed (cancelled k) id o.node_id s c f in
      IsSameDisk-trans s.disk s1.disk s'.disk one (
        AllFailed-IsSameDisk cancelled (suc k) id os s1 s'
          (IsSameDisk-CleansUp id s.disk s1.disk one c) rest)

  IsSameDisk-Kept :
      (id path : Bytes) (d d' d'' : Disk)
      → IsSameDisk d d'
      → Kept id path d' d''
      → Kept id path d d''
  IsSameDisk-Kept id path d d' d'' (f, e) k = record {
    content = k.content;
    hash = k.hash;
    there = k.there;
    fresh = elim k.fresh [
      | inl at_dest ↦ inl at_dest
      | inr (seen, is, failed) ↦ inr (
        seen,
        λ p.
            is p
            ∙ ap (λ x. if eqb (host.dest_path shared_dir id) p then some k.content else x) (f p),
        failed,
      )
    ];
    others = λ p.
        subst
          (λ x. (if eqb path p || eqb (host.dest_path shared_dir id) p then x else d''.files p) ≡ x)
          (f p) (k.others p);
  }

  dialled-Kept :
      (cancelled : ℕ → Bool) (id owner path : Bytes) (o : Option (List Message × Link))
      (s : State services host shared_dir self_id)
      → CleansUp id s.disk
      → (dialled services host shared_dir self_id cancelled id owner o s).0 ≡ ok path
      → Kept id path s.disk (dialled services host shared_dir self_id cancelled id owner o s).1.disk
  dialled-Kept cancelled id owner path none s c h = cc
  dialled-Kept cancelled id owner path (some (incoming, link)) s c h =
      received-Kept id owner path incoming _ s.disk _ s.index
        (request_file-Left host id shared_dir cancelled incoming link s.disk c.apart) h

  try_owner-Kept :
      (cancelled : ℕ → Bool) (id owner path : Bytes) (s : State services host shared_dir self_id)
      → CleansUp id s.disk
      → (try_owner services host shared_dir self_id cancelled id owner s).0 ≡ ok path
      → Kept id path s.disk (try_owner services host shared_dir self_id cancelled id owner s).1.disk
  unfolding try_owner
  try_owner-Kept cancelled id owner path s c h =
      dialled-Kept cancelled id owner path (dial owner) s c h

  -- Whatever the peers send and whatever name the catalog has for the file, where temporary files can
  -- be removed and their names are not the one named by the id: where a download ends with a path, a
  -- file whose SHA-256 is the wanted id stands there. The path is the one named by the id, or
  -- os.Stat gave an error for it, the file standing under the other path then; and nothing but these
  -- two paths has changed, whatever attempts have failed before. It needs of sort.Slice what
  -- `IsSortOf` says.
  pub download-Kept :
      (cancelled : ℕ → ℕ → Bool) (id path : Bytes) (owners : List OwnerHint)
      (s : State services host shared_dir self_id)
      → CleansUp id s.disk
      → ((os : List OwnerHint) → IsSortOf seen_later os (sort seen_later os))
      → get_owners id ≡ some owners
      → (download services host shared_dir self_id cancelled id s).0 ≡ ok path
      → Kept id path s.disk (download services host shared_dir self_id cancelled id s).1.disk
  download-Kept cancelled id path owners s c sorts g h =
      let (plan, good, success) =
        download-FirstSuccess services host shared_dir self_id cancelled id path owners s sorts g
          h in
      let (before, o, after, s', split, all, r, out) = success in
      let same = AllFailed-IsSameDisk cancelled 0 id before s s' c all in
      IsSameDisk-Kept id path s.disk s'.disk _ same (
        subst
          (λ (q : Result DownloadError Bytes × State services host shared_dir self_id).
            Kept id path s'.disk q.1.disk)
          (sym r)
          (try_owner-Kept (cancelled (0 + length before)) id o.node_id path s'
            (IsSameDisk-CleansUp id s.disk s'.disk same c) (ap (λ q. q.0) (sym r) ∙ h)))
