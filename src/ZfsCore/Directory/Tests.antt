-- ===== src/ZfsCore/Directory/Tests.antt =====
-- Runs of libs/zfs-core/src/directory.rs at concrete inputs.
use zero_os.Common.{ℕ, ◌≡◌, refl, [], ◌∷◌, false}
use zero_os.Common.Retain.{retain}
use zero_os.ZfsCore.Directory.{
  slash, Text, Index, normalize, text_lt, list_prefix, starts_with, drop_slashes,
}
use zero_os.ZfsCore.Directory.Index.{IsSorted, list_prefix-retain}

-- "a/", "/a", "/a/b", "/b"
abbrev a_slash : Text
a_slash = 97 ∷ 47 ∷ []

abbrev root_a : Text
root_a = 47 ∷ 97 ∷ []

abbrev root_ab : Text
root_ab = 47 ∷ 97 ∷ 47 ∷ 98 ∷ []

abbrev root_b : Text
root_b = 47 ∷ 98 ∷ []

normalize_test :
    (normalize a_slash ≡ root_a)
    × (normalize root_a ≡ root_a)
    × (normalize (47 ∷ 47 ∷ []) ≡ 47 ∷ [])
unfolding normalize drop_slashes
normalize_test = (refl, refl, refl)

abbrev index : Index ℕ
index = (root_a, 1) ∷ (root_ab, 2) ∷ (root_b, 3) ∷ []

index-IsSorted : IsSorted index
unfolding text_lt
index-IsSorted = ((refl, (refl, tt)), ((refl, tt), (tt, tt)))

no_slash : starts_with (97 ∷ []) (slash ∷ []) ≡ false
unfolding starts_with
no_slash = refl

list_prefix-retain_example :
    (list_prefix (slash ∷ a_slash) index ≡ retain (λ x. starts_with x.0 root_a) index)
    × (list_prefix a_slash index ≡ retain (λ x. starts_with x.0 root_a) index)
list_prefix-retain_example = list_prefix-retain (97 ∷ []) 1 index refl no_slash index-IsSorted
