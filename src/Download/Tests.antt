-- ===== src/Download/Tests.antt =====
-- Two owners of a file, one out of reach, and the theorems at concrete inputs.
use mathlib.Core.Path.{subst}
use kin.Base.{
  ℕ, ◌⊎◌, inl, inr, Bool-cases, arith, ◌≡◌, refl, Bool, true, false, some, none, List, [], ◌∷◌,
  ◌++◌, eqb, if◌then◌else◌, Bytes, ok,
}
use kin.Base.Ints.{pos}
use kin.Catalog.{Entry, OwnerHint}
use kin.Messages.{file_response, file_chunk}
use kin.Transfer.{Host, request_file}
use kin.Transfer.Samples.{free_name-eq-some, temp_name, empty_disk}
use kin.Transfer.Received.{IsApart}
use kin.Download.{Services, State, seen_later, try_owner, download, rename_to_original}
use kin.Download.Plan.{IsIn, IsNotLess, InOrder, IsSortOf, IsPlan}
use kin.Download.Attempts.{FirstSuccess, download-FirstSuccess}
use kin.Download.Safety.{CleansUp, Kept, download-Kept}

abbrev hint : Bytes → ℕ → OwnerHint
hint id n = record { node_id = id; seen_at = pos n }

-- The owners as the catalog has them.
abbrev owners : List OwnerHint
owners = hint (1 ∷ []) 9 ∷ hint (3 ∷ []) 4 ∷ hint (2 ∷ []) 5 ∷ []

abbrev song : Entry
song = record {
  file_id = 7 ∷ [];
  name = b's' ∷ [];
  size = pos 1;
  mod_time = pos 0;
  owner_node_id = 3 ∷ [];
  local_path = [];
  deleted = false;
  updated_at = pos 0;
}

abbrev first_byte_is_3 : Bytes → Bool
first_byte_is_3 [] = false
first_byte_is_3 (b ∷ bs) = eqb (b ∷ []) (3 ∷ [])

-- Sorting by insertion.
insert_sorted : (OwnerHint → OwnerHint → Bool) → OwnerHint → List OwnerHint → List OwnerHint
insert_sorted less o [] = o ∷ []
insert_sorted less o (p ∷ ps) =
    let rest = insert_sorted less o ps in if less o p then o ∷ p ∷ ps else p ∷ rest

sorted : (OwnerHint → OwnerHint → Bool) → List OwnerHint → List OwnerHint
unfolding insert_sorted
sorted less [] = []
sorted less (o ∷ os) = insert_sorted less o (sorted less os)

IsIn-insert_sorted :
    (less : OwnerHint → OwnerHint → Bool) (x o : OwnerHint) (os : List OwnerHint)
    → (x ≡ o) ⊎ IsIn x os
    → IsIn x (insert_sorted less o os)
unfolding insert_sorted
IsIn-insert_sorted less x o [] m = m
IsIn-insert_sorted less x o (p ∷ ps) m = elim (Bool-cases (less o p)) [
  | inl t ↦ rw t m
  | inr f ↦ rw f (elim m [
    | inl same ↦ inr (IsIn-insert_sorted less x o ps (inl same))
    | inr later ↦ elim later [
      | inl same ↦ inl same
      | inr last ↦ inr (IsIn-insert_sorted less x o ps (inr last))
    ]
  ])
]

insert_sorted-adds :
    (less : OwnerHint → OwnerHint → Bool) (x o : OwnerHint) (os : List OwnerHint)
    → IsIn x (insert_sorted less o os)
    → (x ≡ o) ⊎ IsIn x os
unfolding insert_sorted
insert_sorted-adds less x o [] m = m
insert_sorted-adds less x o (p ∷ ps) m = elim (Bool-cases (less o p)) [
  | inl t ↦ rw t at m
  | inr f ↦ elim (rw f at m) [
    | inl same ↦ inr (inl same)
    | inr later ↦ elim (insert_sorted-adds less x o ps later) [
      | inl same ↦ inl same
      | inr last ↦ inr (inr last)
    ]
  ]
]

insert_sorted-IsNotLess :
    (less : OwnerHint → OwnerHint → Bool) (p o : OwnerHint) (os : List OwnerHint)
    → less o p ≡ false
    → IsNotLess less p os
    → IsNotLess less p (insert_sorted less o os)
unfolding insert_sorted
insert_sorted-IsNotLess less p o [] f h = f
insert_sorted-IsNotLess less p o (q ∷ os) f h = elim (Bool-cases (less o q)) [
  | inl t ↦ rw t f
  | inr g ↦ rw g h
]

seen_later_asym : (o p : OwnerHint) → seen_later o p ≡ true → seen_later p o ≡ false
unfolding seen_later
seen_later_asym o p h = ground arith

insert_sorted-InOrder :
    (o : OwnerHint) (os : List OwnerHint)
    → InOrder seen_later os
    → InOrder seen_later (insert_sorted seen_later o os)
unfolding insert_sorted
insert_sorted-InOrder o [] h = (tt, tt)
insert_sorted-InOrder o (p ∷ ps) (head, rest) = elim (Bool-cases (seen_later o p)) [
  | inl t ↦ rw t (seen_later_asym o p t, (head, rest))
  | inr f ↦ rw f (insert_sorted-IsNotLess seen_later p o ps f head, insert_sorted-InOrder o ps rest)
]

sorted-IsSortOf : (os : List OwnerHint) → IsSortOf seen_later os (sorted seen_later os)
unfolding sorted
sorted-IsSortOf [] = record { keeps = λ o m. m; adds_none = λ o m. m; in_order = tt }
sorted-IsSortOf (p ∷ ps) =
    let h = sorted-IsSortOf ps in
    record {
      keeps = λ o m.
          IsIn-insert_sorted seen_later o p (sorted seen_later ps)
            (elim m [ inl same ↦ inl same | inr later ↦ inr (h.keeps o later) ]);
      adds_none = λ o m. elim (insert_sorted-adds seen_later o p (sorted seen_later ps) m) [
        | inl same ↦ inl same
        | inr later ↦ inr (h.adds_none o later)
      ];
      in_order = insert_sorted-InOrder p (sorted seen_later ps) h.in_order;
    }

-- The node 1 asks; the node 2 cannot be dialled, and the node 3 sends the file whose hash is 7.
abbrev services : Services
services = record {
  get_owners = λ id. some owners;
  get_entry = λ owner id. some song;
  dial = λ owner.
      if first_byte_is_3 owner
      then some (
        file_response (7 ∷ []) (pos 1) false ∷ file_chunk (7 ∷ []) (7 ∷ []) true ∷ [],
        record { sent = []; room = 1 },
      )
      else none;
  Index = Unit {0};
  add = λ path index. (true, index);
  sort = λ less os. sorted less os;
  base = λ name. name;
  join = λ dir name. dir ++ name;
  stat_ok = λ path there. false;
  rename_ok = λ old new. true;
}

abbrev host : Host
host = record {
  sha256 = λ bytes. bytes;
  read_file = λ path. none;
  stat = λ path. none;
  open_file = λ path. none;
  dest_path = λ dir id. dir ++ id;
}

abbrev dir : Bytes
dir = b'd' ∷ []

abbrev start : State services host dir (1 ∷ [])
start = record { disk = empty_disk; index = tt }

abbrev path : Bytes
path = b'd' ∷ b's' ∷ []

-- The node 2 was seen later and is asked first, in vain.
download_run : (download services host dir (1 ∷ []) (λ k i. false) (7 ∷ []) start).0 ≡ ok path
unfolding download eqb rename_to_original request_file seen_later sorted insert_sorted
download_run = refl

attempt_run :
    (try_owner services host dir (1 ∷ []) (λ i. false) (7 ∷ []) (3 ∷ []) start).0 ≡ ok path
unfolding try_owner eqb rename_to_original request_file
attempt_run = refl

start-IsApart : IsApart host (7 ∷ []) dir empty_disk
unfolding eqb
start-IsApart there temp e =
    subst (λ x. eqb (dir ++ 7 ∷ []) x ≡ false)
      (free_name-eq-some temp_name temp (there temp_name) e) refl

start-CleansUp : CleansUp services host dir (1 ∷ []) (7 ∷ []) start.disk
start-CleansUp = record { removes = refl; apart = start-IsApart }

download-FirstSuccess_example :
    (plan : List OwnerHint) × IsPlan (1 ∷ []) owners plan
    × FirstSuccess services host dir
        (1 ∷ [])
        (λ k i. false)
        0
        (7 ∷ [])
        plan
        start
        path
        (download services host dir (1 ∷ []) (λ k i. false) (7 ∷ []) start)
download-FirstSuccess_example =
    download-FirstSuccess services host dir (1 ∷ []) (λ k i. false) (7 ∷ []) path owners start
      sorted-IsSortOf refl download_run

download-Kept_example :
    Kept services host dir
      (1 ∷ [])
      (7 ∷ [])
      path
      start.disk
      (download services host dir (1 ∷ []) (λ k i. false) (7 ∷ []) start).1.disk
download-Kept_example =
    download-Kept services host dir (1 ∷ []) (λ k i. false) (7 ∷ []) path owners start
      start-CleansUp sorted-IsSortOf refl download_run
