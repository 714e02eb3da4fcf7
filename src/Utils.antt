-- ===== src/Utils.antt =====
-- src/riak_utils.c: bounded string copies and the growth of a block of pointers.
pub mod Growth
pub mod Copy
use riak_c_client.Base.{
  ℕ, zero, suc, ◌+◌, ◌-◌, ◌%◌, ◌++◌, Bool, true, false, Option, none, some, List, [], ◌∷◌,
  replicate, read_run, put_run, write_run, u32_mod, mul64, if◌then◌else◌, length, ltb,
}
use riak_c_client.Memory.{
  Heap, Cmd, fault, pure, value, ◌>>=◌, ◌>>◌, Config, config_clean_allocate, free_if,
}

-- The bytes of a C string before its NUL; `none` if the block holds no NUL.
unfoldable pub c_string : List ℕ → Option (List ℕ)
c_string [] = none
c_string (zero ∷ block) = some []
c_string (suc b ∷ block) = elim (c_string block) [ none ↦ none | some s ↦ some (suc b ∷ s) ]

-- The copying loop of `riak_strlcpy` and `riak_strlcat`, run for at most `room` rounds: the bytes
-- taken from `src`. A read behind the block of `src` is `none`.
unfoldable pub copied : ℕ → List ℕ → Option (List ℕ)
copied zero src = some []
copied (suc room) [] = none
copied (suc room) (zero ∷ src) = some []
copied (suc room) (suc b ∷ src) = elim (copied room src) [ none ↦ none | some s ↦ some (suc b ∷ s) ]

-- The block of `dst` after the copy with its NUL, and the count returned. A block shorter than
-- what is written is `none`.
unfoldable pub strlcpy : List ℕ → List ℕ → ℕ → Option (List ℕ × ℕ)
strlcpy dst src zero = some (dst, 0)
strlcpy dst src (suc n) = elim (copied (suc n) src) [
  | none ↦ none
  | some s ↦ elim (write_run dst 0 (s ++ (0 ∷ []))) [ none ↦ none | some d ↦ some (d, length s) ]
]

-- The walk of `riak_strlcat` to the end of `dst`: at most `size` bytes.
unfoldable pub walked : ℕ → List ℕ → Option ℕ
walked zero dst = some 0
walked (suc n) [] = none
walked (suc n) (zero ∷ dst) = some 0
walked (suc n) (suc b ∷ dst) = elim (walked n dst) [ none ↦ none | some k ↦ some (suc k) ]

unfoldable pub strlcat : List ℕ → List ℕ → ℕ → Option (List ℕ × ℕ)
strlcat dst src zero = some (dst, 0)
strlcat dst src (suc n) = elim (walked (suc n) dst) [
  | none ↦ none
  | some k ↦ elim (copied (suc n - k) src) [
    | none ↦ none
    | some s ↦ elim (write_run dst k (s ++ (0 ∷ []))) [
      | none ↦ none
      | some d ↦ some (d, k + length s)
    ]
  ]
]

-- The new block after `memcpy(new_array, *from, oldnum*size)`, counted in cells of `size` bytes.
unfoldable pub copy_cells : {A : Type 0} → A → List A → ℕ → ℕ → Option (List A)
copy_cells zeroed from oldnum newnum = elim (read_run from oldnum) [
  | none ↦ none
  | some kept ↦ write_run (replicate newnum zeroed) 0 kept
]

-- `riak_array_realloc` with its counts as `riak_uint32_t`: the new block, or `none` for NULL, in
-- which case the old block stays.
unfoldable pub realloc_u32 : {A : Type 0} → Config → A → List A → ℕ → ℕ → ℕ → Cmd (Option (List A))
realloc_u32 cfg zeroed from size oldnum newnum = do
  got ← config_clean_allocate (some cfg) (mul64 newnum size)
  elim got [
    | true ↦ do
      block ← value (copy_cells zeroed from oldnum newnum)
      free_if true
      pure (some block)
    | false ↦ pure none
  ]

-- `riak_array_realloc`, called with counts of any type.
unfoldable pub array_realloc :
    {A : Type 0} → Config → A → List A → ℕ → ℕ → ℕ → Cmd (Option (List A))
array_realloc cfg zeroed from size oldnum newnum =
    realloc_u32 cfg zeroed from size (oldnum % u32_mod) (newnum % u32_mod)
