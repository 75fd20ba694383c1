-- ===== src/Download/Attempts.antt =====
-- Which owner a download takes the file from.
use kin.Base.{
  ℕ, suc, ◌+◌, ◌≡◌, refl, sym, ap, ◌∙◌, ◌⊎◌, inl, inr, Bool, some, List, [], ◌∷◌, ◌++◌, arith,
  length, Bytes, Result, ok, err,
}
use kin.Catalog.{OwnerHint}
use kin.Transfer.{Host}
use kin.Download.{
  Services, DownloadError, no_available_owner, State, try_owner, try_owners, filter_self,
  seen_later, download,
}
use kin.Download.Plan.{IsIn, IsSortOf, IsPlan, none_in, plan_lem}

-- An attempt that gave an error.
abbrev pub Failed : Result DownloadError Bytes → Type 0
Failed (ok path) = ⊥
Failed (err e) = Unit

module _ (services : Services) (host : Host) (shared_dir self_id : Bytes) where
  open services use {get_owners, sort}

  -- An attempt at one owner in the `k`-th turn.
  abbrev pub Attempt : Type 0
  Attempt = Result DownloadError Bytes × State services host shared_dir self_id

  abbrev attempt :
      (ℕ → ℕ → Bool) → ℕ → Bytes → OwnerHint → State services host shared_dir self_id → Attempt
  attempt cancelled k file_id o s =
      try_owner services host shared_dir self_id (cancelled k) file_id o.node_id s

  -- The attempts at `os` from the `k`-th turn and the state `s` on have all failed, and left `s'`.
  abbrev pub AllFailed :
      (ℕ → ℕ → Bool)
      → ℕ
      → Bytes
      → List OwnerHint
      → State services host shared_dir self_id
      → State services host shared_dir self_id
      → Type 0
  AllFailed cancelled k file_id [] s s' = s' ≡ s
  AllFailed cancelled k file_id (o ∷ os) s s' =
      Failed (try_owner services host shared_dir self_id (cancelled k) file_id o.node_id s).0
      × AllFailed cancelled (suc k) file_id os
          (try_owner services host shared_dir self_id (cancelled k) file_id o.node_id s).1 s'

  -- The attempts at `os` from the `k`-th turn and the state `s` on, up to one that succeeds with `r`.
  abbrev pub FirstSuccess :
      (ℕ → ℕ → Bool)
      → ℕ
      → Bytes
      → List OwnerHint
      → State services host shared_dir self_id
      → Bytes
      → Result DownloadError Bytes × State services host shared_dir self_id
      → Type 0
  FirstSuccess cancelled k file_id os s path r =
      (before : List OwnerHint) × (o : OwnerHint) × (after : List OwnerHint) × (s' : State services
        host shared_dir self_id)
      × (os ≡ before ++ o ∷ after)
      × AllFailed cancelled k file_id before s s'
      × (r
          ≡ try_owner services host shared_dir self_id (cancelled (k + length before)) file_id
              o.node_id s')
      × (r.0 ≡ ok path)

  attempt-cases : (a : Attempt) → ((path : Bytes) × (a.0 ≡ ok path)) ⊎ Failed a.0
  attempt-cases (ok path, s) = inl (path, refl)
  attempt-cases (err e, s) = inr tt

  abbrev go_on : (State services host shared_dir self_id → Attempt) → Attempt → Attempt
  go_on next a = elim a.0 as (λ x. Attempt) [ ok path ↦ (ok path, a.1) | err e ↦ next a.1 ]

  past :
      (a : Attempt) (next : State services host shared_dir self_id → Attempt)
      → Failed a.0
      → go_on next a ≡ next a.1
  past (ok path, s) next f = absurd f
  past (err e, s) next f = refl

  stopped :
      (a : Attempt) (next : State services host shared_dir self_id → Attempt) (path : Bytes)
      → a.0 ≡ ok path
      → go_on next a ≡ a
  stopped (ok q, s) next path h = refl
  stopped (err e, s) next path h = cc

  none_left :
      {P : Type 0} (cancelled : ℕ → ℕ → Bool) (k : ℕ) (file_id path : Bytes)
      (s : State services host shared_dir self_id)
      → (try_owners services host shared_dir self_id cancelled k file_id [] s).0 ≡ ok path
      → P
  unfolding try_owners
  none_left cancelled k file_id path s h = cc

  skipped :
      (cancelled : ℕ → ℕ → Bool) (k : ℕ) (file_id : Bytes) (o : OwnerHint) (os : List OwnerHint)
      (s : State services host shared_dir self_id)
      → Failed (attempt cancelled k file_id o s).0
      → try_owners services host shared_dir self_id cancelled k file_id (o ∷ os) s
        ≡ try_owners services host shared_dir self_id cancelled
            (suc k)
            file_id
            os
            (attempt cancelled k file_id o s).1
  unfolding try_owners
  skipped cancelled k file_id o os s f =
      past (attempt cancelled k file_id o s)
        (try_owners services host shared_dir self_id cancelled (suc k) file_id os) f

  taken :
      (cancelled : ℕ → ℕ → Bool) (k : ℕ) (file_id : Bytes) (o : OwnerHint) (os : List OwnerHint)
      (path : Bytes) (s : State services host shared_dir self_id)
      → (attempt cancelled k file_id o s).0 ≡ ok path
      → try_owners services host shared_dir self_id cancelled k file_id (o ∷ os) s
        ≡ attempt cancelled k file_id o s
  unfolding try_owners
  taken cancelled k file_id o os path s h =
      stopped (attempt cancelled k file_id o s)
        (try_owners services host shared_dir self_id cancelled (suc k) file_id os) path h

  no_turn : (k : ℕ) (os : List OwnerHint) → os ≡ [] → k + length os ≡ k
  no_turn k os e = rw e (omega arith)

  one_turn : (k : ℕ) (o : OwnerHint) (os : List OwnerHint) → suc k + length os ≡ k + length (o ∷ os)
  one_turn k o os = omega arith

  try_owners-FirstSuccess :
      (cancelled : ℕ → ℕ → Bool) (k : ℕ) (file_id : Bytes) (os : List OwnerHint) (path : Bytes)
      (s : State services host shared_dir self_id)
      → (try_owners services host shared_dir self_id cancelled k file_id os s).0 ≡ ok path
      → FirstSuccess cancelled k file_id os s path
          (try_owners services host shared_dir self_id cancelled k file_id os s)
  try_owners-FirstSuccess cancelled k file_id [] path s h = none_left cancelled k file_id path s h
  try_owners-FirstSuccess cancelled k file_id (o ∷ os) path s h =
      elim (attempt-cases (attempt cancelled k file_id o s)) [
        | inl (q, e) ↦ (
          [],
          o,
          os,
          s,
          refl,
          refl,
          taken cancelled k file_id o os q s e
              ∙ ap (λ j. attempt cancelled j file_id o s) (sym (no_turn k [] refl)),
          h,
        )
        | inr f ↦
            let same = skipped cancelled k file_id o os s f in
            let (before, p, after, s', split, all, r, out) =
              try_owners-FirstSuccess cancelled (suc k) file_id os path
                (attempt cancelled k file_id o s).1 (rw same at h) in
            (
              o ∷ before,
              p,
              after,
              s',
              ap (λ l. o ∷ l) split,
              (f, all),
              same ∙ r ∙ ap (λ j. attempt cancelled j file_id p s') (one_turn k o before),
              h,
            )
      ]

  none_or_some :
      (cancelled : ℕ → ℕ → Bool) (file_id : Bytes) (os plan : List OwnerHint)
      (s : State services host shared_dir self_id)
      → ((o : OwnerHint) → IsIn o plan → IsIn o os)
      → elim os as (λ x. Attempt) [
        | [] ↦ (err no_available_owner, s)
        | o ∷ ps ↦ try_owners services host shared_dir self_id cancelled 0 file_id plan s
      ]
        ≡ try_owners services host shared_dir self_id cancelled 0 file_id plan s
  unfolding try_owners
  none_or_some cancelled file_id [] plan s h = rw (none_in plan h) refl
  none_or_some cancelled file_id (o ∷ os) plan s h = refl

  -- A download that succeeds goes over a plan: the catalog's owners of the file that are not the
  -- node itself, each of them, and one that was seen later in front of one that was seen earlier.
  -- It is the attempt at the first owner of the plan that succeeds: the attempts at those before it
  -- have failed, one after the other, and the download ends with what that attempt gives in the
  -- state that these have left. It needs of sort.Slice, with the comparator of the code, that its
  -- result has the same items, none of them less than the one before it.
  pub download-FirstSuccess :
      (cancelled : ℕ → ℕ → Bool) (file_id path : Bytes) (owners : List OwnerHint)
      (s : State services host shared_dir self_id)
      → ((os : List OwnerHint) → IsSortOf seen_later os (sort seen_later os))
      → get_owners file_id ≡ some owners
      → (download services host shared_dir self_id cancelled file_id s).0 ≡ ok path
      → (plan : List OwnerHint) × IsPlan self_id owners plan
        × FirstSuccess cancelled 0 file_id plan s path
            (download services host shared_dir self_id cancelled file_id s)
  unfolding download
  download-FirstSuccess cancelled file_id path owners s sorts g h =
      let os = filter_self self_id owners in
      let plan = sort seen_later os in
      let same = none_or_some cancelled file_id os plan s (sorts os).adds_none in
      let (before, o, after, s', split, all, r, out) =
        try_owners-FirstSuccess cancelled 0 file_id plan path s (rw (g, same) at h) in
      (
        plan,
        plan_lem self_id owners plan (sorts os),
        (before, o, after, s', split, all, rw g (same ∙ r), h),
      )
