-- ===== src/Binary/Print.antt =====
-- riak_binary_print of src/riak_binary.c: what it writes and where.
use riak_c_client.Base.{
  ℕ, zero, suc, ◌≤◌, ◌<◌, ◌≡◌, refl, ap, Option, none, some, List, [], ◌∷◌, ◌++◌, arith, set, drop,
  length, sub32, length-append, length-drop,
}
use riak_c_client.Binary.{Binary, print_loop, terminate, print, cells}

-- A run one cell further on, with the cell in front left alone.
abbrev shifted : ℕ → Option (List ℕ × ℕ) → Option (List ℕ × ℕ)
shifted t none = none
shifted t (some (ts, n)) = some (t ∷ ts, suc n)

set-append :
    (xs ts : List ℕ) (n v : ℕ)
    → length xs ≡ n
    → n < length ts
    → set (xs ++ drop n ts) n v ≡ xs ++ (v ∷ drop (suc n) ts)
set-append xs [] n v e h = absurd (omega arith)
set-append [] (t ∷ ts) zero v e h = refl
set-append [] (t ∷ ts) (suc n) v e h = absurd (omega arith)
set-append (x ∷ xs) (t ∷ ts) zero v e h = absurd (omega arith)
set-append (x ∷ xs) (t ∷ ts) (suc n) v e h =
    ap (λ r. x ∷ r) (set-append xs ts n v (omega arith) (omega arith))

-- The NUL behind what a loop has written.
pub terminate-append :
    (len n r : ℕ) (xs ts : List ℕ)
    → 0 < len
    → length xs ≡ n
    → n < length ts
    → terminate len n (xs ++ drop n ts) r ≡ some (xs ++ (0 ∷ drop (suc n) ts), r)
unfolding terminate
terminate-append len n r xs ts pos e h =
    ground (arith, set-append xs ts n 0 e h, length-append xs (drop n ts), length-drop n ts)

print_loop-none : (k : ℕ) (bs : List ℕ) → 0 < k → print_loop k 0 (sub32 0 1) bs [] ≡ none
unfolding print_loop
print_loop-none zero bs pos = absurd (omega arith)
print_loop-none (suc k) [] pos = refl
print_loop-none (suc k) (b ∷ bs) pos = refl

-- The bytes of a binary lie in its block.
pub record HasBytes (bin : Binary) : Type 0 where
  pub within : bin.len ≤ length (cells bin.data_block)

-- With a length of 0 the limit of the loop of riak_binary_print wraps around: a binary that has bytes,
-- all in its block, is written to a target of no bytes, outside the target's block.
pub print-zero : {bin : Binary} → HasBytes bin → 0 < bin.len → print (some bin) [] 0 ≡ none
unfolding print
print-zero {bin} has pos = rw (print_loop-none bin.len (cells bin.data_block) pos, print)
