-- ===== src/Ipc/Table/Ids.antt =====
-- The channels in use have different ids, and a call on one channel leaves the others alone.
use zero_os.Common.{
  ℕ, ◌≡◌, ◌∙◌, ◌≢◌, ◌⊎◌, inl, inr, true, false, List, [], ◌∷◌, Option, none, some, Bool-cases,
  arith,
}
use zero_os.Common.Result.{Result, ok, Result-cases}
use zero_os.Ipc.Queue.{ProcessId, IpcError}
use zero_os.Ipc.Channel.{Channel, ChannelDesc, configure}
use zero_os.Ipc.Table.{is_channel, has_channel, claim, create, with_channel}

-- No id is used twice.
abbrev pub IdsDistinct : List Channel → Type 0
IdsDistinct [] = Unit
IdsDistinct (c ∷ cs) = (c.in_use ≡ true → has_channel c.id cs ≡ false) × IdsDistinct cs

-- The channel that a call with this id finds.
pub lookup : ℕ → List Channel → Option Channel
lookup chan [] = none
lookup chan (c ∷ cs) = elim (is_channel chan c) [ true ↦ some c | false ↦ lookup chan cs ]

claim-cons :
    (desc : ChannelDesc) (owner : Option ProcessId) (c : Channel) (cs ds : List Channel)
    → claim desc owner (c ∷ cs) ≡ ok ds
    → ((c.in_use ≡ true) × ((cs' : List Channel) × (claim desc owner cs ≡ ok cs') × (ds ≡ c ∷ cs')))
      ⊎ ((c.in_use ≡ false) × (ds ≡ configure c desc owner ∷ cs))
unfolding claim
claim-cons desc owner c cs ds e = elim (Bool-cases c.in_use) [
  | inl used ↦ elim (Result-cases (claim desc owner cs)) [
    | inl (cs', later) ↦ inl (used, (cs', later, ground arith))
    | inr (x, failed) ↦ absurd (ground arith)
  ]
  | inr free ↦ inr (free, ground arith)
]

claim-has_channel :
    (desc : ChannelDesc) (owner : Option ProcessId) (cs ds : List Channel) (k : ℕ)
    → k ≢ desc.id
    → claim desc owner cs ≡ ok ds
    → has_channel k ds ≡ has_channel k cs
unfolding has_channel configure
claim-has_channel desc owner [] ds k n e = absurd (unfold claim in (cc))
claim-has_channel desc owner (c ∷ cs) ds k n e = elim (claim-cons desc owner c cs ds e) [
  | inl (used, (cs', later, s)) ↦
      rw s (ground (arith, claim-has_channel desc owner cs cs' k n later))
  | inr (free, s) ↦ rw s (ground arith)
]

claim-lookup :
    (desc : ChannelDesc) (owner : Option ProcessId) (cs ds : List Channel) (k : ℕ)
    → k ≢ desc.id
    → claim desc owner cs ≡ ok ds
    → lookup k ds ≡ lookup k cs
unfolding lookup configure
claim-lookup desc owner [] ds k n e = absurd (unfold claim in (cc))
claim-lookup desc owner (c ∷ cs) ds k n e = elim (claim-cons desc owner c cs ds e) [
  | inl (used, (cs', later, s)) ↦ rw s (ground (arith, claim-lookup desc owner cs cs' k n later))
  | inr (free, s) ↦ rw s (ground arith)
]

claim-IdsDistinct :
    (desc : ChannelDesc) (owner : Option ProcessId) (cs ds : List Channel)
    → has_channel desc.id cs ≡ false
    → claim desc owner cs ≡ ok ds
    → IdsDistinct cs
    → IdsDistinct ds
unfolding has_channel
claim-IdsDistinct desc owner [] ds new e v = absurd (unfold claim in (cc))
claim-IdsDistinct desc owner (c ∷ cs) ds new e v = elim (claim-cons desc owner c cs ds e) [
  | inl (used, (cs', later, s)) ↦
      let other : c.id ≢ desc.id = ground arith in
      rw s (
        (λ u. claim-has_channel desc owner cs cs' c.id other later ∙ v.0 u),
        claim-IdsDistinct desc owner cs cs' (ground arith) later v.1,
      )
  | inr (free, s) ↦ rw s (unfold configure in (λ u. ground arith, v.1))
]

claim-finds :
    (desc : ChannelDesc) (owner : Option ProcessId) (cs ds : List Channel)
    → has_channel desc.id cs ≡ false
    → claim desc owner cs ≡ ok ds
    → (c : Channel) × (lookup desc.id ds ≡ some (configure c desc owner))
unfolding has_channel lookup configure
claim-finds desc owner [] ds new e = absurd (unfold claim in (cc))
claim-finds desc owner (c ∷ cs) ds new e = elim (claim-cons desc owner c cs ds e) [
  | inl (used, (cs', later, s)) ↦
      let (d, found) = claim-finds desc owner cs cs' (ground arith) later in
      (d, rw s (ground arith))
  | inr (free, s) ↦ (c, rw s (ground arith))
]

-- A channel is created only under an id that no channel in use has: the ids stay distinct, the id
-- then finds a channel configured by the descriptor, and every other id finds what it found before.
pub create-IdsDistinct :
    (cs ds : List Channel) (desc : ChannelDesc) (owner : Option ProcessId) (k : ℕ)
    → IdsDistinct cs
    → create cs desc owner ≡ ok ds
    → k ≢ desc.id
    → IdsDistinct ds
      × ((c : Channel) × (lookup desc.id ds ≡ some (configure c desc owner)))
      × (lookup k ds ≡ lookup k cs)
unfolding create
create-IdsDistinct cs ds desc owner k v e n = elim (Bool-cases (has_channel desc.id cs)) [
  | inl old ↦ absurd (ground arith)
  | inr new ↦
      let claimed : claim desc owner cs ≡ ok ds = ground arith in
      (
        claim-IdsDistinct desc owner cs ds new claimed v,
        claim-finds desc owner cs ds new claimed,
        claim-lookup desc owner cs ds k n claimed,
      )
]

module _ {A : Type 0} (chan : ℕ) (f : Channel → Result IpcError (A × Channel)) where
  with_channel-cons :
      (c : Channel) (cs ds : List Channel) (a : A)
      → with_channel chan f (c ∷ cs) ≡ ok (a, ds)
      → ((is_channel chan c ≡ true) × ((d : Channel) × (f c ≡ ok (a, d)) × (ds ≡ d ∷ cs)))
        ⊎ ((is_channel chan c ≡ false)
            × ((cs' : List Channel) × (with_channel chan f cs ≡ ok (a, cs')) × (ds ≡ c ∷ cs')))
  unfolding with_channel
  with_channel-cons c cs ds a e = elim (Bool-cases (is_channel chan c)) [
    | inl hit ↦ elim (Result-cases (f c)) [
      | inl ((b, d), done) ↦ inl (hit, (d, ground arith, ground arith))
      | inr (x, failed) ↦ absurd (ground arith)
    ]
    | inr miss ↦ elim (Result-cases (with_channel chan f cs)) [
      | inl ((b, cs'), later) ↦ inr (miss, (cs', ground arith, ground arith))
      | inr (x, failed) ↦ absurd (ground arith)
    ]
  ]

  -- A call acts on the one channel that its id finds, and changes no other.
  pub with_channel-lookup :
      (cs ds : List Channel) (a : A)
      → ((c d : Channel) (b : A) → f c ≡ ok (b, d) → (d.id ≡ c.id) × (d.in_use ≡ c.in_use))
      → with_channel chan f cs ≡ ok (a, ds)
      → ((c d : Channel) × (lookup chan cs ≡ some c)
          × (f c ≡ ok (a, d))
          × (lookup chan ds ≡ some d))
        × ((k : ℕ) → k ≢ chan → (lookup k ds ≡ lookup k cs) × (has_channel k ds ≡ has_channel k cs))
        × (has_channel chan ds ≡ has_channel chan cs)
  unfolding lookup has_channel
  with_channel-lookup [] ds a keep e = absurd (unfold with_channel in (cc))
  with_channel-lookup (c ∷ cs) ds a keep e = elim (with_channel-cons c cs ds a e) [
    | inl (hit, (d, done, s)) ↦
        let (same_id, same_use) = keep c d a done in
        (
          (c, d, ground arith, done, rw s (ground arith)),
          (λ k n. rw s (ground arith)),
          rw s (ground arith),
        )
    | inr (miss, (cs', later, s)) ↦
        let ((c', d', found, done, found'), others, has) =
          with_channel-lookup cs cs' a keep later in
        (
          (c', d', ground arith, done, rw s (ground arith)),
          (λ k n. rw s (ground (arith, others k n))),
          rw s (ground arith),
        )
  ]

  with_channel-IdsDistinct :
      (cs ds : List Channel) (a : A)
      → ((c d : Channel) (b : A) → f c ≡ ok (b, d) → (d.id ≡ c.id) × (d.in_use ≡ c.in_use))
      → with_channel chan f cs ≡ ok (a, ds)
      → IdsDistinct cs
      → IdsDistinct ds
  with_channel-IdsDistinct [] ds a keep e v = absurd (unfold with_channel in (cc))
  with_channel-IdsDistinct (c ∷ cs) ds a keep e v = elim (with_channel-cons c cs ds a e) [
    | inl (hit, (d, done, s)) ↦
        let (same_id, same_use) = keep c d a done in rw (s, same_id, same_use) v
    | inr (miss, (cs', later, s)) ↦
        let (found, others, has) = with_channel-lookup cs cs' a keep later in
        rw s
          (ground (arith, others c.id, has, v.0), with_channel-IdsDistinct cs cs' a keep later v.1)
  ]

  -- What a call on a table means: it acts by `f` on the channel that its id finds, every other id
  -- finds what it found, and the ids stay distinct.
  pub record Acts (cs ds : List Channel) (a : A) : Type 0 where
    pub acted :
        (c d : Channel) × (lookup chan cs ≡ some c) × (f c ≡ ok (a, d)) × (lookup chan ds ≡ some d)
    pub others : (k : ℕ) → k ≢ chan → lookup k ds ≡ lookup k cs
    pub distinct : IdsDistinct ds

  pub with_channel-Acts :
      (cs ds : List Channel) (a : A)
      → ((c d : Channel) (b : A) → f c ≡ ok (b, d) → (d.id ≡ c.id) × (d.in_use ≡ c.in_use))
      → with_channel chan f cs ≡ ok (a, ds)
      → IdsDistinct cs
      → Acts cs ds a
  with_channel-Acts cs ds a keep e v =
      let (acted', others', has) = with_channel-lookup cs ds a keep e in
      record {
        acted = acted';
        others = λ k n. (others' k n).0;
        distinct = with_channel-IdsDistinct cs ds a keep e v;
      }
