-- ===== src/ZfsCore/Directory/Index.antt =====
-- The index as a map from paths, and the listing of a subtree.
use zero_os.Common.{
  ℕ, ◌≡◌, refl, sym, ap, ◌∙◌, ◌++◌, inl, inr, true, false, [], ◌∷◌, some, Bool-cases, if◌then◌else◌,
  All, All-imp,
}
use zero_os.Common.Retain.{retain}
use zero_os.Common.Vector.{Pairwise}
use zero_os.ZfsCore.Directory.{
  Text, slash, text_lt, text_eq, starts_with, normalize, Index, put, lookup, insert, get,
  range_from, take_prefixed, list_prefix,
}
use zero_os.ZfsCore.Directory.Order.{
  text_eq-eq, text_lt-ne, text_lt_trans, text_lt_total, starts_with-ge, starts_with-between,
}
use zero_os.ZfsCore.Directory.Paths.{slashes, ends_in_slash, normalize-absolute, normalize-relative}

module _ {E : Type 0} where
  -- The keys grow.
  abbrev pub IsSorted : Index E → Type 0
  IsSorted index = Pairwise (λ x y. text_lt x.0 y.0 ≡ true) index

  put-All :
      (P : Text × E → Type 0) (key : Text) (entry : E) (index : Index E)
      → P (key, entry)
      → All P index
      → All P (put key entry index)
  unfolding put
  put-All P key entry [] p a = (p, tt)
  put-All P key entry (x ∷ xs) p a = elim (Bool-cases (text_eq key x.0)) [
    | inl same ↦ rw same (p, a.1)
    | inr other ↦ elim (Bool-cases (text_lt key x.0)) [
      | inl before ↦ rw (other, before) (p, a)
      | inr after ↦ rw (other, after) (a.0, put-All P key entry xs p a.1)
    ]
  ]

  pub put-IsSorted :
      (key : Text) (entry : E) (index : Index E) → IsSorted index → IsSorted (put key entry index)
  unfolding put
  put-IsSorted key entry [] s = (tt, tt)
  put-IsSorted key entry (x ∷ xs) s = elim (Bool-cases (text_eq key x.0)) [
    | inl same ↦ let e : key ≡ x.0 = text_eq-eq key x.0 same in rw same (rw e s.0, s.1)
    | inr other ↦ elim (Bool-cases (text_lt key x.0)) [
      | inl before ↦
          rw (other, before)
            ((before, All-imp (λ y lt. text_lt_trans key x.0 y.0 before lt) xs s.0), s)
      | inr after ↦
          rw (other, after)
            (
              put-All (λ y. text_lt x.0 y.0 ≡ true) key entry xs (text_lt_total key x.0 other after)
                  s.0,
              put-IsSorted key entry xs s.1,
            )
    ]
  ]

  lookup-put :
      (key other : Text) (entry : E) (index : Index E)
      → lookup other (put key entry index)
        ≡ (if text_eq other key then some entry else lookup other index)
  unfolding put lookup
  lookup-put key other entry [] = refl
  lookup-put key other entry (x ∷ xs) = elim (Bool-cases (text_eq key x.0)) [
    | inl same ↦
        let e : key ≡ x.0 = text_eq-eq key x.0 same in
        rw same (
          rw (← e) (elim (Bool-cases (text_eq other key)) [
            | inl here ↦ rw here refl
            | inr there ↦ rw there refl
          ]))
    | inr differs ↦ elim (Bool-cases (text_lt key x.0)) [
      | inl before ↦ rw (differs, before) refl
      | inr after ↦ elim (Bool-cases (text_eq other x.0)) [
        | inl here ↦
            let e : other ≡ x.0 = text_eq-eq other x.0 here in
            let apart : text_eq other key ≡ false =
              rw e (text_lt-ne x.0 key (text_lt_total key x.0 differs after)) in
            rw (differs, after, here, apart) refl
        | inr there ↦ rw (differs, after, there) (lookup-put key other entry xs)
      ]
    ]
  ]

  -- What was inserted is found under every spelling of its path, and the other paths find what they
  -- found before.
  pub get-insert :
      (path other : Text) (entry : E) (index : Index E)
      → get other (insert path entry index)
        ≡ (if text_eq (normalize other) (normalize path) then some entry else get other index)
  unfolding get insert
  get-insert path other entry index = lookup-put (normalize path) (normalize other) entry index

  take_prefixed-retain :
      (prefix : Text) (index : Index E)
      → IsSorted index
      → All (λ x. text_lt x.0 prefix ≡ false) index
      → take_prefixed prefix index ≡ retain (λ x. starts_with x.0 prefix) index
  unfolding take_prefixed retain
  take_prefixed-retain prefix [] s a = refl
  take_prefixed-retain prefix (x ∷ xs) s a = elim (Bool-cases (starts_with x.0 prefix)) [
    | inl has ↦ rw has (ap (λ ys. x ∷ ys) (take_prefixed-retain prefix xs s.1 a.1))
    | inr lacks ↦ rw lacks (
        sym (
          none_left xs (
            All-imp
              (λ y lt. elim (Bool-cases (starts_with y.0 prefix)) [
                | inl has ↦
                    let bad : starts_with x.0 prefix ≡ true =
                      starts_with-between prefix x.0 y.0 a.0 lt has in
                    cc
                | inr ok' ↦ ok'
              ])
              xs s.0)))
  ]
    where
      none_left :
          (ys : Index E)
          → All (λ y. starts_with y.0 prefix ≡ false) ys
          → retain (λ y. starts_with y.0 prefix) ys ≡ []
      none_left [] b = refl
      none_left (y ∷ ys) b = rw (b.0) (none_left ys b.1)

  above :
      (prefix lower : Text) (xs : Index E)
      → text_lt lower prefix ≡ false
      → All (λ y. text_lt lower y.0 ≡ true) xs
      → All (λ y. text_lt y.0 prefix ≡ false) xs
  above prefix lower xs h a =
      All-imp
        (λ y lt. elim (Bool-cases (text_lt y.0 prefix)) [
          | inl less ↦
              let bad : text_lt lower prefix ≡ true = text_lt_trans lower y.0 prefix lt less in cc
          | inr ok' ↦ ok'
        ])
        xs a

  range-retain :
      (prefix : Text) (index : Index E)
      → IsSorted index
      → take_prefixed prefix (range_from prefix index) ≡ retain (λ x. starts_with x.0 prefix) index
  unfolding range_from retain
  range-retain prefix [] s = unfold take_prefixed in refl
  range-retain prefix (x ∷ xs) s = elim (Bool-cases (text_lt x.0 prefix)) [
    | inl below ↦
        let lacks : starts_with x.0 prefix ≡ false = elim (Bool-cases (starts_with x.0 prefix)) [
          | inl has ↦ let bad : text_lt x.0 prefix ≡ false = starts_with-ge x.0 prefix has in cc
          | inr ok' ↦ ok'
        ] in
        rw (below, lacks) (range-retain prefix xs s.1)
    | inr from ↦
        rw from (take_prefixed-retain prefix (x ∷ xs) s (from, above prefix x.0 xs from s.0))
  ]

  list_prefix-normalize :
      (prefix : Text) (index : Index E)
      → IsSorted index
      → list_prefix prefix index ≡ retain (λ x. starts_with x.0 (normalize prefix)) index
  unfolding list_prefix
  list_prefix-normalize prefix index s = range-retain (normalize prefix) index s

  -- Let a path be given without a slash in front or at its end. Over an index in order, the search for
  -- any spelling of it, with or without the slash in front and with any number of slashes at the end,
  -- lists in order exactly the entries whose path starts with a slash and the given bytes. What
  -- follows them is free: the search for "a/" lists "/a", "/a/b" and also "/ab".
  pub list_prefix-retain :
      (cs : Text) (n : ℕ) (index : Index E)
      → ends_in_slash cs ≡ false
      → starts_with cs (slash ∷ []) ≡ false
      → IsSorted index
      → (list_prefix (slash ∷ (cs ++ slashes n)) index
          ≡ retain (λ x. starts_with x.0 (slash ∷ cs)) index)
        × (list_prefix (cs ++ slashes n) index ≡ retain (λ x. starts_with x.0 (slash ∷ cs)) index)
  list_prefix-retain cs n index e f s = (
    list_prefix-normalize (slash ∷ (cs ++ slashes n)) index s
        ∙ ap (λ p. retain (λ x. starts_with x.0 p) index) (normalize-absolute cs n e),
    list_prefix-normalize (cs ++ slashes n) index s
        ∙ ap (λ p. retain (λ x. starts_with x.0 p) index) (normalize-relative cs n e f),
  )
