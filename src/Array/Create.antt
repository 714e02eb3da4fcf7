-- ===== src/Array/Create.antt =====
-- riak_array_new: what it makes and what it gives back.
use riak_c_client.Base.{
  ℕ, ◌+◌, ◌/◌, ◌^◌, ◌<◌, ◌≡◌, refl, true, false, Option, none, some, [], arith, mul64,
  length-replicate,
}
use riak_c_client.Error.{RiakError, eriak_ok, eriak_out_of_memory}
use riak_c_client.Memory.{Heap, Config}
use riak_c_client.Memory.Returns
use riak_c_client.Memory.Returns.{
  Returns, returns, Moved, Allocated, free_if-Returns, config_clean_allocate-Returns,
}
use riak_c_client.Array.{Array, new, fresh, sizeof_array, sizeof_ptr}
use riak_c_client.Array.Valid.{IsValid, contents, owned}

-- An empty valid array of the capacity asked for, or no memory.
abbrev pub Made : ℕ → RiakError × Option Array → Type 0
Made size (eriak_ok, some ra) = IsValid ra × (ra.capacity ≡ size) × (contents ra ≡ [])
Made size (eriak_out_of_memory, none) = Unit {0}
Made size _ = ⊥

fresh-Made :
    (cfg : Config) (size : ℕ)
    → 0 < size
    → size < 2 ^ 60
    → Made size (eriak_ok, some (fresh cfg size))
fresh-Made cfg size pos small =
    let cells : mul64 sizeof_ptr size / sizeof_ptr ≡ size = omega arith in
    (
      record { block = rw cells (length-replicate size 0); fits = omega arith; positive = pos },
      refl,
      refl,
    )

-- riak_array_new for at least one element and fewer than 2 ^ 60 makes an empty valid array of that
-- capacity, or says that there is no memory; the blocks that it took are those that the array owns, so none leaks on failure.
pub new-Made :
    (cfg : Config) (size : ℕ) (h : Heap)
    → 0 < size
    → size < 2 ^ 60
    → Returns
        (λ r g. Made size r × (g.mallocs + h.frees ≡ h.mallocs + g.frees + owned r.1))
        (new cfg size h)
unfolding new
new-Made cfg size h pos small =
    Returns.bind (config_clean_allocate-Returns (some cfg) sizeof_array h) (elim [
      | true ↦ λ g m.
          Returns.bind (config_clean_allocate-Returns (some cfg) (mul64 sizeof_ptr size) g) (elim [
            | true ↦ λ k n. returns (fresh-Made cfg size pos small, omega arith)
            | false ↦
                λ k n. Returns.bind (free_if-Returns true k) λ _ l o. returns (tt, omega arith)
          ])
      | false ↦ λ g m. returns (tt, omega arith)
    ])
