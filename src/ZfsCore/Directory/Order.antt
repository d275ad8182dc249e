-- ===== src/ZfsCore/Directory/Order.antt =====
-- The order of strings.
use zero_os.Common.{◌≡◌, refl, true, false, [], ◌∷◌, ==_refl, arith}
use zero_os.ZfsCore.Directory.{Text, text_lt, text_eq, starts_with}

pub text_eq_refl : (s : Text) → text_eq s s ≡ true
unfolding text_eq
text_eq_refl [] = refl
text_eq_refl (x ∷ xs) = rw (==_refl x) (text_eq_refl xs)

pub text_eq-eq : (s t : Text) → text_eq s t ≡ true → s ≡ t
unfolding text_eq
text_eq-eq [] [] e = refl
text_eq-eq [] (y ∷ ys) e = cc
text_eq-eq (x ∷ xs) [] e = cc
text_eq-eq (x ∷ xs) (y ∷ ys) e = ground (arith, text_eq-eq xs ys)

pub text_eq-flip : (s t : Text) → text_eq s t ≡ false → text_eq t s ≡ false
unfolding text_eq
text_eq-flip [] [] e = e
text_eq-flip [] (y ∷ ys) e = refl
text_eq-flip (x ∷ xs) [] e = refl
text_eq-flip (x ∷ xs) (y ∷ ys) e = ground (arith, text_eq-flip xs ys)

pub text_lt-ne : (s t : Text) → text_lt s t ≡ true → text_eq s t ≡ false
unfolding text_lt text_eq
text_lt-ne s [] e = cc
text_lt-ne [] (y ∷ ys) e = refl
text_lt-ne (x ∷ xs) (y ∷ ys) e = ground (arith, text_lt-ne xs ys)

pub text_lt_asym : (s t : Text) → text_lt s t ≡ true → text_lt t s ≡ false
unfolding text_lt
text_lt_asym s [] e = cc
text_lt_asym [] (y ∷ ys) e = refl
text_lt_asym (x ∷ xs) (y ∷ ys) e = ground (arith, text_lt_asym xs ys)

pub text_lt_trans : (s t u : Text) → text_lt s t ≡ true → text_lt t u ≡ true → text_lt s u ≡ true
unfolding text_lt
text_lt_trans s t [] e f = cc
text_lt_trans s [] (z ∷ zs) e f = cc
text_lt_trans [] (y ∷ ys) (z ∷ zs) e f = refl
text_lt_trans (x ∷ xs) (y ∷ ys) (z ∷ zs) e f = ground (arith, text_lt_trans xs ys zs)

-- Of two different strings one comes first.
pub text_lt_total : (s t : Text) → text_eq s t ≡ false → text_lt s t ≡ false → text_lt t s ≡ true
unfolding text_lt text_eq
text_lt_total [] [] e f = cc
text_lt_total [] (y ∷ ys) e f = cc
text_lt_total (x ∷ xs) [] e f = refl
text_lt_total (x ∷ xs) (y ∷ ys) e f = ground (arith, text_lt_total xs ys)

-- A string that starts so does not come before its prefix.
pub starts_with-ge : (s p : Text) → starts_with s p ≡ true → text_lt s p ≡ false
unfolding starts_with text_lt
starts_with-ge s [] e = refl
starts_with-ge [] (y ∷ ys) e = cc
starts_with-ge (x ∷ xs) (y ∷ ys) e = ground (arith, starts_with-ge xs ys)

-- The strings with a prefix stand together: what lies between the prefix and one of them has it.
pub starts_with-between :
    (p s t : Text)
    → text_lt s p ≡ false
    → text_lt s t ≡ true
    → starts_with t p ≡ true
    → starts_with s p ≡ true
unfolding starts_with text_lt
starts_with-between [] s t a b c = refl
starts_with-between (x ∷ xs) s [] a b c = cc
starts_with-between (x ∷ xs) [] (z ∷ zs) a b c = cc
starts_with-between (x ∷ xs) (y ∷ ys) (z ∷ zs) a b c = ground (arith, starts_with-between xs ys zs)
