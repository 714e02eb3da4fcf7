-- ===== src/Utils/Growth.antt =====
-- riak_array_realloc of src/riak_utils.c: the cells of the new block, and the balance of blocks.
use riak_c_client.Base.{
  ℕ, zero, suc, ◌≤◌, ◌≡◌, refl, ap, true, false, Option, none, some, List, [], ◌∷◌, ◌++◌, arith,
  length, take, drop, replicate, length-take, length-replicate, mul64,
}
use riak_c_client.Memory.{Heap, Config}
use riak_c_client.Memory.Returns
use riak_c_client.Memory.Returns.{
  Returns, returns, Moved, Allocated, config_clean_allocate-Returns, free_if-Returns,
}
use riak_c_client.Utils.{copy_cells, realloc_u32}

module _ {A : Type 0} where
  -- The block that a growth from `from` to `new` cells hands out.
  abbrev pub regrown_cells : A → List A → ℕ → List A
  regrown_cells zeroed from new = from ++ drop (length from) (replicate new zeroed)

  -- A new block and the old one given back, or NULL with no block moved.
  abbrev pub Reallocated : List A → Heap → Option (List A) → Heap → Type 0
  Reallocated cells h none g = Moved h 0 0 g
  Reallocated cells h (some block) g = Moved h 1 1 g × (block ≡ cells)

  pub take_all : (xs : List A) (n : ℕ) → n ≡ length xs → take n xs ≡ xs
  take_all [] zero h = refl
  take_all [] (suc n) h = refl
  take_all (x ∷ xs) zero h = absurd (omega arith)
  take_all (x ∷ xs) (suc n) h = ap (λ r. x ∷ r) (take_all xs n (omega arith))

  pub copy_cells-eq :
      (zeroed : A) (from : List A) (old new : ℕ)
      → length from ≡ old
      → old ≤ new
      → copy_cells zeroed from old new ≡ some (regrown_cells zeroed from new)
  unfolding copy_cells
  copy_cells-eq zeroed from old new len fits =
      ground (arith, take_all from old, length-replicate new zeroed, length-take old from)

  pub realloc_u32-Returns :
      (cfg : Config) (zeroed : A) (from : List A) (size old new : ℕ) (h : Heap)
      → length from ≡ old
      → old ≤ new
      → Returns
          (Reallocated (regrown_cells zeroed from new) h)
          (realloc_u32 cfg zeroed from size old new h)
  unfolding realloc_u32
  realloc_u32-Returns cfg zeroed from size old new h len fits =
      Returns.bind (config_clean_allocate-Returns (some cfg) (mul64 new size) h) (elim [
        | true ↦ λ g m.
            rw (copy_cells-eq zeroed from old new len fits)
              (Returns.bind (free_if-Returns true g) λ u k n. returns (omega arith, refl))
        | false ↦ λ g m. returns m
      ])
