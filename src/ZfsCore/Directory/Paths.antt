-- ===== src/ZfsCore/Directory/Paths.antt =====
-- The paths that the index is asked for.
use zero_os.Common.{
  ℕ, zero, suc, ◌≡◌, refl, ap, ◌∙◌, inl, inr, Bool, false, [], ◌∷◌, ◌++◌, ◌==◌, replicate,
  Bool-cases, arith,
}
use zero_os.ZfsCore.Directory.{Text, slash, unless_slash, drop_slashes, normalize, starts_with}

-- The form of the paths in the index: one slash in front, and none at the end but that one.
pub data IsNormal : Text → Type 0 where
  normal : (cs : Text) → drop_slashes cs ≡ cs → IsNormal (slash ∷ cs)

drop_slashes-drop_slashes : (cs : Text) → drop_slashes (drop_slashes cs) ≡ drop_slashes cs
unfolding drop_slashes
drop_slashes-drop_slashes [] = refl
drop_slashes-drop_slashes (c ∷ cs) = kept (drop_slashes cs) (drop_slashes-drop_slashes cs)
  where
    kept : (ds : Text) → drop_slashes ds ≡ ds → drop_slashes (unless_slash c ds) ≡ unless_slash c ds
    kept [] e = elim (Bool-cases (c == slash)) [
      | inl gone ↦ rw gone refl
      | inr stays ↦ rw stays (rw stays refl)
    ]
    kept (d ∷ ds) e = rw e refl

pub normalize-IsNormal : (path : Text) → IsNormal (normalize path)
unfolding normalize
normalize-IsNormal [] = normal [] (unfold drop_slashes in refl)
normalize-IsNormal (c ∷ cs) = elim (Bool-cases (c == slash)) [
  | inl absolute ↦
      let e : c ≡ slash = ground (arith, absolute) in
      rw (absolute, e) (normal (drop_slashes cs) (drop_slashes-drop_slashes cs))
  | inr relative ↦ rw relative (normal (drop_slashes (c ∷ cs)) (drop_slashes-drop_slashes (c ∷ cs)))
]

-- A path in that form is found under itself.
pub normalize-normal : (path : Text) → IsNormal path → normalize path ≡ path
unfolding normalize
normalize-normal path (normal cs e) = rw e refl

abbrev pub slashes : ℕ → Text
slashes n = replicate n slash

-- The last byte is a slash.
abbrev pub ends_in_slash : Text → Bool
ends_in_slash [] = false
ends_in_slash (c ∷ []) = c == slash
ends_in_slash (c ∷ d ∷ ds) = ends_in_slash (d ∷ ds)

drop_slashes-same : (cs : Text) → ends_in_slash cs ≡ false → drop_slashes cs ≡ cs
unfolding drop_slashes
drop_slashes-same [] e = refl
drop_slashes-same (c ∷ []) e = rw e refl
drop_slashes-same (c ∷ d ∷ ds) e = rw (drop_slashes-same (d ∷ ds) e) refl

drop_slashes-slashes : (n : ℕ) → drop_slashes (slashes n) ≡ []
unfolding drop_slashes
drop_slashes-slashes zero = refl
drop_slashes-slashes (suc n) = rw (drop_slashes-slashes n) refl

drop_slashes-append : (cs : Text) (n : ℕ) → drop_slashes (cs ++ slashes n) ≡ drop_slashes cs
unfolding drop_slashes
drop_slashes-append [] n = drop_slashes-slashes n
drop_slashes-append (c ∷ cs) n = ap (unless_slash c) (drop_slashes-append cs n)

-- Every spelling of a path has the one form: with or without the slash in front, and with any number
-- of slashes at the end.
pub normalize-absolute :
    (cs : Text) (n : ℕ)
    → ends_in_slash cs ≡ false
    → normalize (slash ∷ (cs ++ slashes n)) ≡ slash ∷ cs
unfolding normalize
normalize-absolute cs n e = ap (λ x. slash ∷ x) (drop_slashes-append cs n ∙ drop_slashes-same cs e)

pub normalize-relative :
    (cs : Text) (n : ℕ)
    → ends_in_slash cs ≡ false
    → starts_with cs (slash ∷ []) ≡ false
    → normalize (cs ++ slashes n) ≡ slash ∷ cs
unfolding normalize starts_with
normalize-relative [] zero e f = refl
normalize-relative [] (suc n) e f = ap (λ x. slash ∷ x) (drop_slashes-slashes n)
normalize-relative (c ∷ cs) n e f =
    let off : (c == slash) ≡ false = ground (arith, f) in
    rw off (ap (λ x. slash ∷ x) (drop_slashes-append (c ∷ cs) n ∙ drop_slashes-same (c ∷ cs) e))
