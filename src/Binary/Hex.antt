-- ===== src/Binary/Hex.antt =====
-- riak_binary_hex_print of src/riak_binary.c: what it writes, and where it leaves its target.
use mathlib.Core.Path.{subst}
use riak_c_client.Base.{
  ℕ, zero, suc, ◌+◌, ◌*◌, ◌/◌, ◌%◌, ◌^◌, ◌≤◌, ◌<◌, ◌≡◌, refl, sym, ap, ◌∙◌, min, Option, none, some,
  List, [], ◌∷◌, ◌++◌, arith, set, take, drop, length, sub32, length-append, length-take,
  length-drop, get_elem?, length-set, get_elem?-some,
}
use native.Mathlib.Decide.{dec_lt}
use riak_c_client.Binary.{Binary, hex_digit, hex_loop, terminate, hex_print, cells}
use riak_c_client.Binary.Print.{HasBytes, terminate-append}

-- The two digits of each byte, high nibble first.
unfoldable pub hex_of : List ℕ → List ℕ
hex_of [] = []
hex_of (b ∷ bs) = hex_digit (b / 16 % 16) ∷ hex_digit (b % 16) ∷ hex_of bs

pub length-hex_of : (bs : List ℕ) → length (hex_of bs) ≡ 2 * length bs
unfolding hex_of
length-hex_of [] = omega arith
length-hex_of (b ∷ bs) = omega (arith, length-hex_of bs)

-- A run one byte and two cells further on, with the cells in front left alone.
abbrev shifted : ℕ → ℕ → Option (List ℕ × ℕ) → Option (List ℕ × ℕ)
shifted t u none = none
shifted t u (some (ts, n)) = some (t ∷ u ∷ ts, suc n)

-- One round of the loop, with the two indices as variables.
hex_round :
    (k count limit b i j : ℕ) (bs ts : List ℕ)
    → i ≡ count * 2
    → j ≡ suc i
    → i < limit
    → get_elem? bs count ≡ some b
    → j < length ts
    → hex_loop (suc k) count limit bs ts
      ≡ hex_loop k
          (suc count)
          limit
          bs
          (set (set ts i (hex_digit (b / 16 % 16))) j (hex_digit (b % 16)))
unfolding hex_loop
hex_round k count limit b i j bs ts e f lt got within = ground (
  arith,
  length-set ts i (hex_digit (b / 16 % 16)),
  length-set ts (count * 2) (hex_digit (b / 16 % 16)),
)

-- The loop stops at its limit.
hex_stop :
    (k count limit : ℕ) (bs ts : List ℕ)
    → limit ≤ count * 2
    → hex_loop (suc k) count limit bs ts ≡ some (ts, count)
unfolding hex_loop
hex_stop k count limit bs ts h = ground arith

hex_past :
    (k count limit : ℕ) (bs ts : List ℕ)
    → limit ≤ count * 2
    → hex_loop k count limit bs ts ≡ some (ts, count)
hex_past zero count limit bs ts h = unfold hex_loop in refl
hex_past (suc k) count limit bs ts h = hex_stop k count limit bs ts h

hex_loop-shifted :
    (k count limit b t u : ℕ) (bs ts : List ℕ)
    → limit < length ts
    → count + k ≤ length bs
    → hex_loop k (suc count) (suc (suc limit)) (b ∷ bs) (t ∷ u ∷ ts)
      ≡ shifted t u (hex_loop k count limit bs ts)
hex_loop-shifted zero count limit b t u bs ts p q = unfold hex_loop in refl
hex_loop-shifted (suc k) count limit b t u bs ts p q = elim (dec_lt (count * 2) limit) [
  | yes lt ↦
      let (v, got) = get_elem?-some bs count (omega arith) in
      let i = count * 2 in
      let hi = hex_digit (v / 16 % 16) in
      let lo = hex_digit (v % 16) in
      hex_round k (suc count) (suc (suc limit)) v (suc (suc i)) (suc (suc (suc i))) (b ∷ bs)
        (t ∷ u ∷ ts) (omega arith) refl (omega arith) got (omega arith)
      ∙ hex_loop-shifted k (suc count) limit b t u bs (set (set ts i hi) (suc i) lo)
          (omega (arith, length-set (set ts i hi) (suc i) lo, length-set ts i hi)) (omega arith)
      ∙ ap (shifted t u)
          (sym (hex_round k count limit v i (suc i) bs ts refl refl lt got (omega arith)))
  | no ge ↦
      hex_stop k (suc count) (suc (suc limit)) (b ∷ bs) (t ∷ u ∷ ts) (omega arith)
      ∙ ap (shifted t u) (sym (hex_stop k count limit bs ts (omega arith)))
]

-- What the loop leaves after `n` rounds.
abbrev filled : ℕ → List ℕ → List ℕ → Option (List ℕ × ℕ)
filled n bs ts = some (hex_of (take n bs) ++ drop (n * 2) ts, n)

filled-shifted :
    (n b t u : ℕ) (bs ts : List ℕ)
    → shifted (hex_digit (b / 16 % 16)) (hex_digit (b % 16)) (filled n bs ts)
      ≡ filled (suc n) (b ∷ bs) (t ∷ u ∷ ts)
unfolding hex_of
filled-shifted n b t u bs ts = let e : suc n * 2 ≡ suc (suc (n * 2)) = omega arith in rw e

-- From a limit of `2 * c` or one less the loop makes `c` rounds, or as many as there are bytes.
hex_loop-zero :
    (k c limit : ℕ) (bs ts : List ℕ)
    → k ≤ length bs
    → limit ≤ c * 2
    → c * 2 ≤ suc limit
    → limit < length ts
    → (n : ℕ) × (n ≡ min k c) × (hex_loop k 0 limit bs ts ≡ filled n bs ts)
hex_loop-zero zero c limit bs ts p lo hi q = (0, omega arith, unfold hex_loop hex_of in refl)
hex_loop-zero (suc k) zero limit bs ts p lo hi q =
    (0, omega arith, hex_stop k 0 limit bs ts (omega arith) ∙ (unfold hex_of in refl))
hex_loop-zero (suc k) (suc c) zero bs ts p lo hi q = absurd (omega arith)
hex_loop-zero (suc k) (suc c) (suc limit) [] ts p lo hi q = absurd (omega arith)
hex_loop-zero (suc k) (suc c) (suc limit) (b ∷ bs) [] p lo hi q = absurd (omega arith)
hex_loop-zero (suc k) (suc c) (suc limit) (b ∷ bs) (t ∷ []) p lo hi q = absurd (omega arith)
hex_loop-zero (suc k) (suc c) (suc zero) (b ∷ bs) (t ∷ u ∷ ts) p lo hi q = (
  1,
  omega arith,
  hex_round k 0 1 b 0 1 (b ∷ bs) (t ∷ u ∷ ts) refl refl (omega arith) refl (omega arith)
      ∙ hex_past k 1 1 (b ∷ bs) (hex_digit (b / 16 % 16) ∷ hex_digit (b % 16) ∷ ts) (omega arith)
      ∙ (unfold hex_of in refl),
)
hex_loop-zero (suc k) (suc c) (suc (suc limit)) (b ∷ bs) (t ∷ u ∷ []) p lo hi q =
    absurd (omega arith)
hex_loop-zero (suc k) (suc c) (suc (suc limit)) (b ∷ bs) (t ∷ u ∷ v ∷ ts) p lo hi q =
    let (n, e, run) =
      hex_loop-zero k c limit bs (v ∷ ts) (omega arith) (omega arith) (omega arith) (omega arith) in
    (
      suc n,
      omega arith,
      hex_round k 0 (suc (suc limit)) b 0 1 (b ∷ bs) (t ∷ u ∷ v ∷ ts) (omega arith) (omega arith)
            (omega arith) refl (omega arith)
          ∙ hex_loop-shifted k 0 limit b (hex_digit (b / 16 % 16)) (hex_digit (b % 16)) bs (v ∷ ts)
              (omega arith) (omega arith)
          ∙ ap (shifted (hex_digit (b / 16 % 16)) (hex_digit (b % 16))) run
          ∙ filled-shifted n b t u bs (v ∷ ts),
    )

hex_loop-min :
    (k c limit : ℕ) (bs ts : List ℕ)
    → k ≤ length bs
    → limit ≤ c * 2
    → c * 2 ≤ suc limit
    → limit < length ts
    → hex_loop k 0 limit bs ts ≡ filled (min k c) bs ts
hex_loop-min k c limit bs ts p lo hi q =
    let (n, e, run) = hex_loop-zero k c limit bs ts p lo hi q in
    subst (λ m. hex_loop k 0 limit bs ts ≡ filled m bs ts) e run

length-hex_of-take : (n : ℕ) (bs : List ℕ) → n ≤ length bs → length (hex_of (take n bs)) ≡ n * 2
length-hex_of-take n bs h = omega (arith, length-hex_of (take n bs), length-take n bs)

-- With a length of `2 * m + 1` for `m` below 2 ^ 30, no more than the target has, riak_binary_hex_print
-- writes the digits of the first `m` bytes of a binary whose bytes lie in its block, or of all where it has fewer, then the NUL, and nothing behind
-- it; the result is the number of digits.
pub hex_print-hex_of :
    {bin : Binary} (m : ℕ) (target : List ℕ)
    → HasBytes bin
    → m < 2 ^ 30
    → m * 2 + 1 ≤ length target
    → let n = min bin.len m in
      hex_print (some bin) target (m * 2 + 1)
      ≡ some (hex_of (take n (cells bin.data_block)) ++ (0 ∷ drop (suc (n * 2)) target), n * 2)
unfolding hex_print
hex_print-hex_of {bin} m target has small fits =
    let limit : sub32 (m * 2 + 1) 1 ≡ m * 2 = omega arith in
    let bs = cells bin.data_block in
    let n = min bin.len m in
    rw
      (
        limit,
        hex_loop-min bin.len m (m * 2) bs target has.within (omega arith) (omega arith)
            (omega arith),
        hex_print,
      )
      (terminate-append (m * 2 + 1) (n * 2) (n * 2) (hex_of (take n bs)) target (omega arith)
        (length-hex_of-take n bs (omega (arith, has.within))) (omega arith))

-- Into a target of an even number of bytes, `2 * m + 2` for `m` below 2 ^ 30, riak_binary_hex_print
-- of a binary of more than `m` bytes, all in its block, writes one byte behind the target.
pub hex_print-even :
    {bin : Binary} (m : ℕ) (target : List ℕ)
    → HasBytes bin
    → m < 2 ^ 30
    → m < bin.len
    → length target ≡ m * 2 + 2
    → hex_print (some bin) target (m * 2 + 2) ≡ none
unfolding hex_print terminate
hex_print-even {bin} m target has small long fits =
    let limit : sub32 (m * 2 + 2) 1 ≡ m * 2 + 1 = omega arith in
    let bs = cells bin.data_block in
    let n = min bin.len (suc m) in
    let digits = hex_of (take n bs) in
    let len = length-hex_of-take n bs (omega (arith, has.within)) in
    rw
      (
        limit,
        hex_loop-min bin.len (suc m) (m * 2 + 1) bs target has.within (omega arith) (omega arith)
            (omega arith),
        hex_print,
      )
      (ground (arith, len, length-append digits (drop (n * 2) target), length-drop (n * 2) target))
