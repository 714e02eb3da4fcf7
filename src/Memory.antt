-- ===== src/Memory.antt =====
-- The heap behind the library's allocator: src/riak_config.c's allocation functions, riak_free of
-- src/riak_utils.c, and the configuration record of src/internal/riak_config-internal.h.
--
-- What the user's allocation function answers is a parameter: a function of the number of calls
-- made before and of the size. A heap counts calls, blocks given out and blocks given back, so a
-- leak is a count that does not come out even. An access outside a block, a use of NULL and signed
-- overflow are `fault`; a loop that does not end on its fuel is `out_of_fuel`.
pub mod Returns
pub mod Rich
pub mod Exact
pub mod Settings
pub mod Shared
mod Tests
use riak_c_client.Base.{ℕ, ◌+◌, Bool, true, false, Option, none, some, if◌then◌else◌}

-- `riak_alloc_fn`: whether the n-th call for so many bytes returns a block.
abbrev pub AllocFn : Type 0
AllocFn = ℕ → ℕ → Bool

pub record Heap : Type 0 where
  pub calls : ℕ
  pub mallocs : ℕ
  pub frees : ℕ

-- A run leaves its access outside a block, its want of fuel, or a result and the heap after it.
pub data Run (Result : Type 0) : Type 0 where
  fault out_of_fuel : Run Result
  ok : Result → Heap → Run Result

abbrev pub Cmd : Type 0 → Type 0
Cmd Result = (before : Heap) → Run Result

module _ {First Then : Type 0} where
  abbrev pub and_then : Run First → (First → Cmd Then) → Run Then
  and_then fault next = fault
  and_then out_of_fuel next = out_of_fuel
  and_then (ok result after) next = next result after

  infixl 5 ◌>>=◌ ◌>>◌
  abbrev pub ◌>>=◌ : Cmd First → (First → Cmd Then) → Cmd Then
  first >>= next = λ before. and_then (first before) next

  abbrev pub ◌>>◌ : Cmd First → Cmd Then → Cmd Then
  first >> second = first >>= (λ ignored. second)

-- No change of the heap.
abbrev pub pure : {Result : Type 0} → Result → Cmd Result
pure result before = ok result before

-- A value that the program reads, or the fault of reading it.
abbrev pub value : {A : Type 0} → Option A → Cmd A
value none = λ h. fault
value (some a) = pure a

-- `_riak_config`, less the reallocation function and the allocator of protobuf-c, which the
-- modelled code passes on and never calls itself.
pub record Config : Type 0 where
  pub malloc_fn : Option AllocFn

-- One call of the allocation function.
unfoldable pub call_malloc : AllocFn → ℕ → Cmd Bool
call_malloc f bytes h =
    if f h.calls bytes
    then ok true (record h { calls = h.calls + 1; mallocs = h.mallocs + 1 })
    else ok false (record h { calls = h.calls + 1 })

-- `(cfg->malloc_fn)(bytes)`, the direct call; an unset pointer faults.
unfoldable pub cfg_malloc : Config → ℕ → Cmd Bool
cfg_malloc cfg bytes = elim (cfg.malloc_fn) [ none ↦ λ h. fault | some f ↦ call_malloc f bytes ]

-- `riak_config_allocate`: whether the returned pointer is not NULL. `cfg` may be NULL.
unfoldable pub config_allocate : Option Config → ℕ → Cmd Bool
config_allocate none bytes = pure false
config_allocate (some cfg) bytes = elim (cfg.malloc_fn) [
  | none ↦ pure false
  | some f ↦ call_malloc f bytes
]

-- `riak_config_clean_allocate`. The block's zeroes are written by those who build its value.
unfoldable pub config_clean_allocate : Option Config → ℕ → Cmd Bool
config_clean_allocate none bytes = pure false
config_clean_allocate (some cfg) bytes = elim (cfg.malloc_fn) [
  | none ↦ pure false
  | some f ↦ call_malloc f bytes
]

-- `riak_free_internal` at the address of a pointer that is NULL or not.
unfoldable pub free_if : Bool → Cmd (Unit {0})
free_if true h = ok tt (record h { frees = h.frees + 1 })
free_if false h = ok tt h
