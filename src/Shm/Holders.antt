-- ===== src/Shm/Holders.antt =====
-- What a call does to the holders of a region.
use zero_os.Common.{
  ◌+◌, ◌^◌, ◌<◌, ◌≡◌, refl, ◌∙◌, inl, inr, Bool, true, false, not, List, [], ◌∷◌, ◌++◌, some, ◌==◌,
  ==_refl, ltb, All, All-every, All-append, Bool-cases, arith,
}
use zero_os.Common.Result.{ok, err, Result-cases}
use zero_os.Common.Retain
use zero_os.Common.Retain.{any, retain-All, any-All, any-append, any-retain}
use zero_os.Common.Vector.{
  Pairwise, find, swap_remove_first, swap_remove_first-All, swap_remove_first-Pairwise,
  any-swap_remove_first, Pairwise-snoc, retain-Pairwise,
}
use zero_os.Common.Pointwise.{
  Pointwise, Pointwise-refl, Pointwise-All, Pointwise-Pairwise, Pointwise-any,
}
use zero_os.Ipc.Queue.{ProcessId}
use zero_os.Shm.{Holder, Region, add_ref, drop_ref, grant_to, capacity}
use zero_os.Shm.Calls.{is_empty}
use zero_os.Shm.Invariant.{OtherHolder, IsLive}

abbrev pub is_of : ProcessId → Holder → Bool
is_of p h = h.pid == p

-- The holders after a call: distinct, counted, and whoever held still holds, but for one process.
pub record Follows (gone : ProcessId → Bool) (hs new : List Holder) : Type 0 where
  pub distinct : Pairwise OtherHolder hs → Pairwise OtherHolder new
  pub counted :
      All (λ h. (0 < h.refs) × (h.refs < 2 ^ 32)) hs
      → All (λ h. (0 < h.refs) × (h.refs < 2 ^ 32)) new
  pub stays : (p : ProcessId) → gone p ≡ false → any (is_of p) hs ≡ true → any (is_of p) new ≡ true

abbrev pub nobody : ProcessId → Bool
nobody p = false

-- An entry before and after a count went up or down.
abbrev pub HolderStep : Holder → Holder → Type 0
HolderStep a b =
    (b.pid ≡ a.pid) × ((0 < a.refs) × (a.refs < 2 ^ 32) → (0 < b.refs) × (b.refs < 2 ^ 32))

HolderStep-refl : (a : Holder) → HolderStep a a
HolderStep-refl a = (refl, λ h. h)

pub add_ref-HolderStep :
    (p : ProcessId) (hs new : List Holder) → add_ref p hs ≡ ok new → Pointwise HolderStep hs new
unfolding add_ref
add_ref-HolderStep p [] new e = cc
add_ref-HolderStep p (h ∷ hs) new e = elim (Bool-cases (h.pid == p)) [
  | inl found ↦ elim (Bool-cases (ltb (h.refs + 1) (2 ^ 32))) [
    | inl fits ↦
        let e' : ok (record h { refs = h.refs + 1 } ∷ hs) ≡ ok new = rw (found, fits) at (e) in
        let shape : record h { refs = h.refs + 1 } ∷ hs ≡ new = cc in
        rw (← shape)
          ((refl, λ c. (omega arith, ground arith)), Pointwise-refl HolderStep HolderStep-refl hs)
    | inr over ↦ let e' : err capacity ≡ ok new = rw (found, over) at (e) in cc
  ]
  | inr other ↦ elim (Result-cases (add_ref p hs)) [
    | inl (rest, r) ↦
        let e' : ok (h ∷ rest) ≡ ok new = rw (other, r) at (e) in
        let shape : h ∷ rest ≡ new = cc in
        rw (← shape) (HolderStep-refl h, add_ref-HolderStep p hs rest r)
    | inr (f, r) ↦ let e' : err f ≡ ok new = rw (other, r) at (e) in cc
  ]
]

pub drop_ref-HolderStep :
    (p : ProcessId) (hs : List Holder) (h : Holder)
    → find (is_of p) hs ≡ some h
    → 1 < h.refs
    → Pointwise HolderStep hs (drop_ref p hs)
unfolding drop_ref find
drop_ref-HolderStep p [] h e more = tt
drop_ref-HolderStep p (x ∷ hs) h e more = elim (Bool-cases (x.pid == p)) [
  | inl found ↦
      let e' : some x ≡ some h = rw found at (e) in
      let same : x ≡ h = cc in
      rw found (
        (refl, λ c. let m : 1 < x.refs = rw same more in (omega arith, omega arith)),
        Pointwise-refl HolderStep HolderStep-refl hs,
      )
  | inr other ↦ rw other (HolderStep-refl x, drop_ref-HolderStep p hs h (rw other at (e)) more)
]

pub steps-Follows : (hs new : List Holder) → Pointwise HolderStep hs new → Follows nobody hs new
steps-Follows hs new p = record {
  distinct =
      λ d. Pointwise-Pairwise HolderStep OtherHolder (λ a b c e x y o. rw (x.0, y.0) o) hs new p d;
  counted = λ c. Pointwise-All HolderStep (λ a b x q. x.1 q) hs new p c;
  stays = λ q here h. Pointwise-any HolderStep (is_of q) (λ a b x t. rw (x.0) t) hs new p h;
}

pub grant_to-Follows :
    (p : ProcessId) (hs new : List Holder) → grant_to p hs ≡ ok new → Follows nobody hs new
unfolding grant_to
grant_to-Follows p hs new e = elim (Bool-cases (any (is_of p) hs)) [
  | inl found ↦ steps-Follows hs new (add_ref-HolderStep p hs new (rw found at (e)))
  | inr missing ↦
      let fresh : Holder = record { pid = p; refs = 1 } in
      let e' : ok (hs ++ (fresh ∷ [])) ≡ ok new = rw missing at (e) in
      let shape : hs ++ (fresh ∷ []) ≡ new = cc in
      rw (← shape) (record {
        distinct = λ d. Pairwise-snoc OtherHolder hs fresh d (any-All (is_of p) hs missing);
        counted = λ c. All-append _ hs (fresh ∷ []) c ((omega arith, omega arith), tt);
        stays = λ q here h. any-append (is_of q) hs (fresh ∷ []) h;
      })
]

pub release-Follows :
    (p : ProcessId) (hs : List Holder) → Follows (λ q. q == p) hs (swap_remove_first (is_of p) hs)
release-Follows p hs = record {
  distinct =
      λ d. swap_remove_first-Pairwise OtherHolder (is_of p) hs (λ a b o. ground (arith, o)) d;
  counted = λ c. swap_remove_first-All _ (is_of p) hs c;
  stays = λ q other h.
      any-swap_remove_first (is_of q) (is_of p) hs (All-every (λ x. ground (arith, other)) hs) ∙ h;
}

pub forget-Follows :
    (p : ProcessId) (hs : List Holder)
    → Follows (λ q. q == p) hs (Retain.retain (λ h. not (h.pid == p)) hs)
forget-Follows p hs = record {
  distinct = λ d. retain-Pairwise OtherHolder _ hs d;
  counted = λ c. retain-All _ _ hs c;
  stays = λ q other h. any-retain (is_of q) _ hs (λ x t. ground (arith, other, t)) h;
}

pub Follows-IsLive :
    (r : Region) (new : List Holder)
    → Follows nobody r.holders new
    → IsLive r
    → is_empty new ≡ false
unfolding any
Follows-IsLive r new f live = held r.holders new f live
  where
    held :
        (hs new : List Holder) → Follows nobody hs new → is_empty hs ≡ false → is_empty new ≡ false
    held [] new f e = cc
    held (h ∷ hs) [] f e =
        let kept : any (is_of h.pid) [] ≡ true = f.stays h.pid refl (rw (==_refl h.pid) refl) in cc
    held (h ∷ hs) (n ∷ ns) f e = refl
