-- ===== src/Shm/Regions.antt =====
-- What a call does to one region.
use zero_os.Common.{
  ℕ, ◌≡◌, refl, ◌⊎◌, inl, inr, Bool, true, false, not, ◌&&◌, List, [], ◌∷◌, none, some, ◌==◌,
  ==_refl, ltb, Bool-cases, Option-cases, arith,
}
use zero_os.Common.Result.{Result, ok, err, >>=-eq-ok, guard, Result-cases}
use zero_os.Common.Retain
use zero_os.Common.Retain.{any, retain-All, any-All, any-append, any-retain}
use zero_os.Common.Vector.{find, swap_remove_first}
use zero_os.Common.Pointwise.{Pointwise, Pointwise-refl}
use zero_os.Ipc.Queue.{ProcessId}
use zero_os.Shm.{
  ShmError, Holder, Region, with_region, add_ref, drop_ref, retain_in, grant_to, grant_in,
  release_in, with_holders, answerless, released, permission,
}
use zero_os.Shm.Calls.{is_empty}
use zero_os.Shm.Invariant.{IsRegion, IsLive, is_holder}
use zero_os.Shm.Holders.{
  is_of, Follows, nobody, Follows-IsLive, steps-Follows, add_ref-HolderStep, drop_ref-HolderStep,
  grant_to-Follows, release-Follows, forget-Follows,
}

-- A region before and after a call: `gone` says who may have lost it.
pub record RegionStep (gone : ProcessId → ℕ → Bool) (a b : Region) : Type 0 where
  pub id : b.id ≡ a.id
  pub valid : IsRegion a → IsRegion b
  pub stays :
      (p : ProcessId) (handle : ℕ)
      → gone p handle ≡ false
      → is_holder p handle a ≡ true
      → is_holder p handle b ≡ true

pub RegionStep-refl : (gone : ProcessId → ℕ → Bool) (a : Region) → RegionStep gone a a
RegionStep-refl gone a = record { id = refl; valid = λ v. v; stays = λ p handle g h. h }

Follows-RegionStep :
    (gone : ProcessId → Bool) (lost : ProcessId → ℕ → Bool) (r : Region) (new : List Holder)
    → ((p : ProcessId) → lost p r.id ≡ false → gone p ≡ false)
    → Follows gone r.holders new
    → RegionStep lost r (record r { holders = new })
Follows-RegionStep gone lost r new covers f = record {
  id = refl;
  valid = λ v. record {
    distinct = f.distinct v.distinct;
    counted = f.counted v.counted;
    sized = v.sized;
  };
  stays = λ p handle g h. elim (Bool-cases (r.id == handle)) [
    | inl same ↦
        let e : r.id ≡ handle = ground (arith, same) in
        rw same (f.stays p (covers p (rw e g)) (rw same at (h)))
    | inr other ↦ let h' : false ≡ true = rw other at (h) in cc
  ];
}

module _ {ℓ} {A : Type ℓ} (handle : ℕ) (act : Region → Result ShmError (A × Region)) where
  -- Only a region with that id is changed, and only as `act` changes it.
  pub with_region-Pointwise :
      (R : Region → Region → Type 0) (a : A)
      → ((r : Region) → R r r)
      → ((r : Region) (after : Region) → r.id ≡ handle → act r ≡ ok (a, after) → R r after)
      → (rs new : List Region) → with_region handle act rs ≡ ok (a, new)
      → Pointwise R rs new
  unfolding with_region
  with_region-Pointwise R a same acts [] new e = cc
  with_region-Pointwise R a same acts (r ∷ rs) new e = elim (Bool-cases (r.id == handle)) [
    | inl found ↦ elim (Result-cases (act r)) [
      | inl ((b, after), done) ↦
          let e' : ◌≡◌ {A = Result ShmError (A × List Region)} (ok (b, after ∷ rs)) (ok (a, new)) =
            rw (found, done) at (e) in
          let shape : after ∷ rs ≡ new = cc in
          let answer : b ≡ a = cc in
          rw (← shape)
            (acts r after (ground (arith, found)) (rw answer at (done)), Pointwise-refl R same rs)
      | inr (f, failed) ↦
          let e' : ◌≡◌ {A = Result ShmError (A × List Region)} (err f) (ok (a, new)) =
            rw (found, failed) at (e) in
          cc
    ]
    | inr other ↦ elim (Result-cases (with_region handle act rs)) [
      | inl ((b, rest), done) ↦
          let e' : ◌≡◌ {A = Result ShmError (A × List Region)} (ok (b, r ∷ rest)) (ok (a, new)) =
            rw (other, done) at (e) in
          let shape : r ∷ rest ≡ new = cc in
          let answer : b ≡ a = cc in
          rw (← shape) (same r, with_region-Pointwise R a same acts rs rest (rw answer at (done)))
      | inr (f, failed) ↦
          let e' : ◌≡◌ {A = Result ShmError (A × List Region)} (err f) (ok (a, new)) =
            rw (other, failed) at (e) in
          cc
    ]
  ]

with_holders-inv {ℓ} :
    {A : Type ℓ} (r after : Region) (got : Result ShmError (A × List Holder)) (a : A)
    → with_holders r got ≡ ok (a, after)
    → (new : List Holder) × (got ≡ ok (a, new)) × (record r { holders = new } ≡ after)
with_holders-inv r after (err f) a e = cc
with_holders-inv r after (ok (b, new)) a e = (new, cc, cc)

answerless-inv :
    (got : Result ShmError (List Holder)) (u : Unit {0}) (new : List Holder)
    → answerless got ≡ ok (u, new)
    → got ≡ ok new
answerless-inv (err f) u new e = cc
answerless-inv (ok hs) u new e = cc

-- A call that only raises counts: whoever held, holds, and a live region stays live.
pub record Grows (a b : Region) : Type 0 where
  pub step : RegionStep (λ p handle. false) a b
  pub live : IsLive a → IsLive b

pub Grows-refl : (r : Region) → Grows r r
Grows-refl r = record { step = RegionStep-refl _ r; live = λ l. l }

grows :
    (r after : Region) (new : List Holder)
    → Follows nobody r.holders new
    → record r { holders = new } ≡ after
    → Grows r after
grows r after new f shape = rw (← shape) (record {
  step = Follows-RegionStep nobody (λ p handle. false) r new (λ p g. refl) f;
  live = Follows-IsLive r new f;
})

pub retain_in-Grows :
    (pid : ProcessId) (r : Region) (u : Unit {0}) (after : Region)
    → retain_in pid r ≡ ok (u, after)
    → Grows r after
unfolding retain_in
retain_in-Grows pid r u after e =
    let (new, got, shape) = with_holders-inv r after (answerless (add_ref pid r.holders)) u e in
    grows r after new
      (steps-Follows r.holders new
        (add_ref-HolderStep pid r.holders new (answerless-inv (add_ref pid r.holders) u new got)))
      shape

pub grant_in-Grows :
    (pid target : ProcessId) (r : Region) (u : Unit {0}) (after : Region)
    → grant_in pid target r ≡ ok (u, after)
    → Grows r after
unfolding grant_in
grant_in-Grows pid target r u after e =
    let (v, owner, e₁) = >>=-eq-ok (guard (r.owner == pid) permission) _ e in
    let (new, got, shape) =
      with_holders-inv r after (answerless (grant_to target r.holders)) u e₁ in
    grows r after new
      (grant_to-Follows target r.holders new (answerless-inv (grant_to target r.holders) u new got))
      shape

-- A release: `lost` says whether the process holds the region no more.
pub record Releases (pid : ProcessId) (handle : ℕ) (lost : Bool) (a b : Region) : Type 0 where
  pub step : RegionStep (λ p h. (p == pid && h == handle) && lost) a b
  pub live : IsLive a → (is_empty b.holders && not (b.id == handle)) ≡ false

pub Releases-refl :
    (pid : ProcessId) (handle : ℕ) (lost : Bool) (r : Region) → Releases pid handle lost r r
Releases-refl pid handle lost r = record {
  step = RegionStep-refl _ r;
  live = λ l. ground (arith, l);
}

pub release_in-Releases :
    (pid : ProcessId) (r : Region) (lost : Bool) (after : Region)
    → release_in pid r ≡ ok (lost, after)
    → Releases pid r.id lost r after
unfolding release_in
release_in-Releases pid r lost after e =
    let (new, got, shape) = with_holders-inv r after _ lost e in
    rw (← shape) (record {
      step = change new got (Option-cases (find (is_of pid) r.holders));
      live = λ l. ground (arith, ==_refl r.id);
    })
  where
    change :
        (new : List Holder)
        → released pid r.holders (find (is_of pid) r.holders) ≡ ok (lost, new)
        → (find (is_of pid) r.holders ≡ none)
          ⊎ ((h : Holder) × (find (is_of pid) r.holders ≡ some h))
        → RegionStep (λ p h. (p == pid && h == r.id) && lost) r (record r { holders = new })
    change new got (inl missing) =
        let e' : err permission ≡ ok (lost, new) = rw missing at (got) in cc
    change new got (inr (h, found)) = elim (Bool-cases (ltb 1 h.refs)) [
      | inl more ↦
          let e' : ok (false, drop_ref pid r.holders) ≡ ok (lost, new) =
            rw (found, more) at (got) in
          let shape : drop_ref pid r.holders ≡ new = cc in
          rw (← shape) (
            Follows-RegionStep nobody _ r (drop_ref pid r.holders) (λ p g. refl)
              (steps-Follows r.holders _
                (drop_ref-HolderStep pid r.holders h found (ground (arith, more)))))
      | inr last ↦
          let e' : ok (true, swap_remove_first (is_of pid) r.holders) ≡ ok (lost, new) =
            rw (found, last) at (got) in
          let shape : swap_remove_first (is_of pid) r.holders ≡ new = cc in
          let gone : true ≡ lost = cc in
          rw (← shape, ← gone)
            (Follows-RegionStep (λ q. q == pid) _ r _ (λ p g. ground (arith, g, ==_refl r.id))
              (release-Follows pid r.holders))
    ]

pub forget-RegionStep :
    (pid : ProcessId) (r : Region)
    → RegionStep
        (λ p h. p == pid)
        r
        (record r { holders = Retain.retain (λ h. not (h.pid == pid)) r.holders })
forget-RegionStep pid r =
    Follows-RegionStep (λ q. q == pid) (λ p h. p == pid) r _ (λ p g. g)
      (forget-Follows pid r.holders)
