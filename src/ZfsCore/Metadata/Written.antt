-- ===== src/ZfsCore/Metadata/Written.antt =====
-- What `encode` writes are bytes.
use zero_os.Common.{
  ℕ, zero, suc, ◌%◌, ◌/◌, ◌^◌, ◌<◌, List, [], ◌∷◌, ◌++◌, Option, none, some, length, All,
  All-append, arith,
}
use zero_os.ZfsCore.Bytes.{to_le_bytes}
use zero_os.ZfsCore.Directory.{Text, Index}
use zero_os.ZfsCore.Metadata.{Entry, signature_bytes, encode_blocks, encode_entry}
use zero_os.ZfsCore.Metadata.RoundTrip.{IsStored, IsSignature, flat, encoded}

abbrev pub AreBytes : List ℕ → Type 0
AreBytes bs = All (λ b. b < 256) bs

AreBytes-append : (xs ys : List ℕ) → AreBytes xs → AreBytes ys → AreBytes (xs ++ ys)
AreBytes-append xs ys = All-append (λ b. b < 256) xs ys

to_le_bytes-AreBytes : (k v : ℕ) → AreBytes (to_le_bytes k v)
unfolding to_le_bytes
to_le_bytes-AreBytes zero v = tt
to_le_bytes-AreBytes (suc k) v = (omega arith, to_le_bytes-AreBytes k (v / 256))

-- A number in front of bytes.
after : (k v : ℕ) (rest : List ℕ) → AreBytes rest → AreBytes (to_le_bytes k v ++ rest)
after k v rest = AreBytes-append (to_le_bytes k v) rest (to_le_bytes-AreBytes k v)

blocks-AreBytes : (bs : List ℕ) → AreBytes (encode_blocks bs)
unfolding encode_blocks
blocks-AreBytes [] = tt
blocks-AreBytes (b ∷ bs) = after 8 b (encode_blocks bs) (blocks-AreBytes bs)

signature-AreBytes : (s : Option (List ℕ)) → IsSignature s → AreBytes (signature_bytes s)
signature-AreBytes none h = tt
signature-AreBytes (some sig) h = h.1

entry-AreBytes : (path : Text) (e : Entry) → IsStored path e → AreBytes (encode_entry path e)
unfolding encode_entry
entry-AreBytes path e v = after 2 _ _ (
    after 2 _ _ (
      after 1 _ _ (
        after 1 _ _ (
          after 4 _ _ (
            after 8 _ _ (
              after 8 _ _ (
                after 4 _ _ (
                  after 4 _ _ (
                    after 4 _ _ (
                      after 8 _ _ (
                        after 8 _ _ (
                          AreBytes-append path _ v.path_bytes (
                            AreBytes-append (encode_blocks e.blocks) _ (blocks-AreBytes e.blocks)
                              (signature-AreBytes e.signature v.signature))))))))))))))

flat-AreBytes : (m : Index Entry) → All (λ x. IsStored x.0 x.1) m → AreBytes (flat m)
flat-AreBytes [] a = tt
flat-AreBytes (x ∷ xs) a =
    AreBytes-append (encode_entry x.0 x.1) (flat xs) (entry-AreBytes x.0 x.1 a.0)
      (flat-AreBytes xs a.1)

pub encoded-AreBytes :
    (m : Index Entry) (next time : ℕ)
    → All (λ x. IsStored x.0 x.1) m
    → AreBytes (encoded m next time)
encoded-AreBytes m next time a =
    AreBytes-append _ (flat m)
      (after 8 next _ (after 8 time _ (to_le_bytes-AreBytes 4 (length m % 2 ^ 32))))
      (flat-AreBytes m a)
