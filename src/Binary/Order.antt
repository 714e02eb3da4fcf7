-- ===== src/Binary/Order.antt =====
-- riak_binary_compare of src/riak_binary.c: the order of binaries by length, then by bytes.
use Prim.Native.Nat.{compare, Ordering}
use riak_c_client.Base.{
  ℕ, zero, suc, ◌≤◌, ◌≡◌, ◌↔◌, refl, sym, ap, ◌∙◌, Option, none, some, List, [], ◌∷◌, arith, take,
  length, length-take, inl, inr, ◌⊎◌,
}
use riak_c_client.Binary.{Binary, memcmp, memcmp_blocks, compare_binary, cells}
use riak_c_client.Binary.Print.{HasBytes}

abbrev pub flip : Option Ordering → Option Ordering
flip none = none
flip (some Ordering.lt) = some Ordering.gt
flip (some Ordering.eq) = some Ordering.eq
flip (some Ordering.gt) = some Ordering.lt

Ordering-cases : (o : Ordering) → (o ≡ Ordering.lt) ⊎ ((o ≡ Ordering.eq) ⊎ (o ≡ Ordering.gt))
Ordering-cases Ordering.lt = inl refl
Ordering-cases Ordering.eq = inr (inl refl)
Ordering-cases Ordering.gt = inr (inr refl)

memcmp-flip :
    (n : ℕ) (a b : List ℕ) → n ≤ length a → n ≤ length b → memcmp n b a ≡ flip (memcmp n a b)
unfolding memcmp
memcmp-flip zero a b p q = refl
memcmp-flip (suc n) [] b p q = absurd (omega arith)
memcmp-flip (suc n) (x ∷ a) [] p q = absurd (omega arith)
memcmp-flip (suc n) (x ∷ a) (y ∷ b) p q = ground (arith, memcmp-flip n a b)

memcmp-some :
    (n : ℕ) (a b : List ℕ) → n ≤ length a → n ≤ length b → (o : Ordering) × (memcmp n a b ≡ some o)
unfolding memcmp
memcmp-some zero a b p q = (Ordering.eq, refl)
memcmp-some (suc n) [] b p q = absurd (omega arith)
memcmp-some (suc n) (x ∷ a) [] p q = absurd (omega arith)
memcmp-some (suc n) (x ∷ a) (y ∷ b) p q =
    let (o, e) = memcmp-some n a b (omega arith) (omega arith) in step o e
  where
    step :
        (o : Ordering)
        → memcmp n a b ≡ some o
        → (o' : Ordering) × (memcmp (suc n) (x ∷ a) (y ∷ b) ≡ some o')
    step o e = elim (Ordering-cases (compare x y)) [
      | inl f ↦ (Ordering.lt, ground (arith, f))
      | inr (inl f) ↦ (o, ground (arith, e, f))
      | inr (inr f) ↦ (Ordering.gt, ground (arith, f))
    ]

memcmp-eq :
    (n : ℕ) (a b : List ℕ)
    → n ≤ length a
    → n ≤ length b
    → (memcmp n a b ≡ some Ordering.eq) ↔ (take n a ≡ take n b)
unfolding memcmp
memcmp-eq zero a b p q = (λ e. refl, λ e. refl)
memcmp-eq (suc n) [] b p q = absurd (omega arith)
memcmp-eq (suc n) (x ∷ a) [] p q = absurd (omega arith)
memcmp-eq (suc n) (x ∷ a) (y ∷ b) p q =
    let (there, back) = memcmp-eq n a b (omega arith) (omega arith) in
    (λ e. ground (arith, there), λ e. ground (arith, back))

memcmp_trans :
    (n : ℕ) (a b c : List ℕ)
    → memcmp n a b ≡ some Ordering.lt
    → memcmp n b c ≡ some Ordering.lt
    → memcmp n a c ≡ some Ordering.lt
unfolding memcmp
memcmp_trans zero a b c p q = cc
memcmp_trans (suc n) [] b c p q = cc
memcmp_trans (suc n) (x ∷ a) [] c p q = cc
memcmp_trans (suc n) (x ∷ a) (y ∷ b) [] p q = cc
memcmp_trans (suc n) (x ∷ a) (y ∷ b) (z ∷ c) p q = ground (arith, memcmp_trans n a b c)

memcmp_blocks-cells :
    (n : ℕ) (a b : Option (List ℕ))
    → n ≤ length (cells a)
    → n ≤ length (cells b)
    → memcmp_blocks n a b ≡ memcmp n (cells a) (cells b)
unfolding memcmp_blocks memcmp
memcmp_blocks-cells n (some a) (some b) p q = refl
memcmp_blocks-cells zero none b p q = refl
memcmp_blocks-cells zero (some a) none p q = refl
memcmp_blocks-cells (suc n) none b p q = absurd (omega arith)
memcmp_blocks-cells (suc n) (some a) none p q = absurd (omega arith)

-- The bytes that a binary stands for.
abbrev pub bytes : Binary → List ℕ
bytes b = take b.len (cells b.data_block)

module _ {a b : Binary} (p : HasBytes a) (q : HasBytes b) where
  compare_binary-some : (o : Ordering) × (compare_binary a b ≡ some o)
  unfolding compare_binary
  compare_binary-some = elim (Ordering-cases (compare a.len b.len)) [
    | inl f ↦ (Ordering.lt, ground (arith, f))
    | inr (inl f) ↦
        let (o, e) =
          memcmp-some a.len (cells a.data_block) (cells b.data_block) p.within
            (len_within (omega_eq f)) in
        (o, ground (arith, f, e, memcmp_blocks-cells a.len a.data_block b.data_block))
    | inr (inr f) ↦ (Ordering.gt, ground (arith, f))
  ]
    where
      omega_eq : compare a.len b.len ≡ Ordering.eq → a.len ≡ b.len
      omega_eq f = ground arith

      len_within : a.len ≡ b.len → a.len ≤ length (cells b.data_block)
      len_within e = omega (arith, q.within)

  equal_parts :
      compare_binary a b ≡ some Ordering.eq
      → (a.len ≡ b.len)
        × (memcmp a.len (cells a.data_block) (cells b.data_block) ≡ some Ordering.eq)
  unfolding compare_binary
  equal_parts e = ground (arith, memcmp_blocks-cells a.len a.data_block b.data_block)

  equal_back :
      a.len ≡ b.len
      → memcmp a.len (cells a.data_block) (cells b.data_block) ≡ some Ordering.eq
      → compare_binary a b ≡ some Ordering.eq
  unfolding compare_binary
  equal_back e f = ground (arith, memcmp_blocks-cells a.len a.data_block b.data_block)

  same_len : bytes a ≡ bytes b → a.len ≡ b.len
  same_len e = omega (
    arith,
    ap length e,
    length-take a.len (cells a.data_block),
    length-take b.len (cells b.data_block),
    p.within,
    q.within,
  )

  -- riak_binary_compare of two binaries whose bytes lie in their blocks never reads outside a block,
  -- and exchanging the two reverses its sign.
  pub compare_binary-flip :
      ((o : Ordering) × (compare_binary a b ≡ some o))
      × (compare_binary b a ≡ flip (compare_binary a b))
  unfolding compare_binary
  compare_binary-flip = (
    compare_binary-some,
    ground (
      arith,
      memcmp_blocks-cells a.len a.data_block b.data_block,
      memcmp_blocks-cells b.len b.data_block a.data_block,
      memcmp-flip a.len (cells a.data_block) (cells b.data_block),
    ),
  )

  -- Of two binaries whose bytes lie in their blocks, riak_binary_compare says equal exactly if they
  -- have the same bytes.
  pub compare_binary-eq : (compare_binary a b ≡ some Ordering.eq) ↔ (bytes a ≡ bytes b)
  compare_binary-eq = (there, back)
    where
      ca : List ℕ
      ca = cells a.data_block

      cb : List ℕ
      cb = cells b.data_block

      laws :
          a.len ≡ b.len → (memcmp a.len ca cb ≡ some Ordering.eq) ↔ (take a.len ca ≡ take a.len cb)
      laws e = memcmp-eq a.len ca cb p.within (omega (arith, q.within))

      there : compare_binary a b ≡ some Ordering.eq → bytes a ≡ bytes b
      there h = let (e, m) = equal_parts h in (laws e).0 m ∙ ap (λ n. take n cb) e

      back : bytes a ≡ bytes b → compare_binary a b ≡ some Ordering.eq
      back h = let e = same_len h in equal_back e ((laws e).1 (h ∙ ap (λ n. take n cb) (sym e)))

-- riak_binary_compare is transitive on binaries whose bytes lie in their blocks: if the first is
-- less than the second and the second than the third, the first is less than the third.
pub compare_binary_trans :
    {a b c : Binary}
    → HasBytes a
    → HasBytes b
    → HasBytes c
    → compare_binary a b ≡ some Ordering.lt
    → compare_binary b c ≡ some Ordering.lt
    → compare_binary a c ≡ some Ordering.lt
unfolding compare_binary
compare_binary_trans {a} {b} {c} p q r e f = ground (
  arith,
  memcmp_blocks-cells a.len a.data_block b.data_block,
  memcmp_blocks-cells b.len b.data_block c.data_block,
  memcmp_blocks-cells a.len a.data_block c.data_block,
  memcmp_trans a.len (cells a.data_block) (cells b.data_block) (cells c.data_block),
)
