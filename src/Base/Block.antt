-- ===== src/Base/Block.antt =====
-- A block of memory as the list of its cells: `none` is an access outside the block.
use Prim.Native.Nat.{ℕ, zero, suc, ◌+◌, ◌≤◌, ◌<◌}
use mathlib.Core.Path.{◌≡◌}
use mathlib.Core.List.{List, [], ◌∷◌, ◌++◌}
use mathlib.Core.Option.{Option, none, some}
use native.Mathlib.Omega.{arith}
use riak_c_client.Base.Tests.{ltb, if◌then◌else◌}
use riak_c_client.Base.Lists.{length, get_elem?, set, take, drop}

module _ {ℓ} {A : Type ℓ} where
  -- `block[i]`
  abbrev pub read_at : List A → ℕ → Option A
  read_at = get_elem?

  -- `block[i] = v`
  abbrev pub write_at : List A → ℕ → A → Option (List A)
  write_at block i v = if ltb i (length block) then some (set block i v) else none

  -- The first `n` cells that `memcpy(dst, src, n)` reads.
  abbrev pub read_run : List A → ℕ → Option (List A)
  read_run block n = if ltb (length block) n then none else some (take n block)

  abbrev pub put_run : List A → ℕ → List A → List A
  put_run block zero bytes = bytes ++ drop (length bytes) block
  put_run [] (suc i) bytes = []
  put_run (x ∷ block) (suc i) bytes = x ∷ put_run block i bytes

  -- The writes of `bytes` to `block[i]`, `block[i + 1]`, ...
  abbrev pub write_run : List A → ℕ → List A → Option (List A)
  write_run block i bytes =
      if ltb (length block) (i + length bytes) then none else some (put_run block i bytes)

  pub write_at-some :
      (block : List A) (i : ℕ) (v : A)
      → i < length block
      → write_at block i v ≡ some (set block i v)
  write_at-some block i v h = ground arith

  pub write_at-none :
      (block : List A) (i : ℕ) (v : A) → length block ≤ i → write_at block i v ≡ none
  write_at-none block i v h = ground arith
