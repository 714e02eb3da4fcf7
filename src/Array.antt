-- ===== src/Array.antt =====
-- src/riak_array.c: the growing array of pointers.
--
-- A pointer is a number, with 0 for NULL. `length` and `capacity` are the bit patterns of their
-- `int64_t`. A failed growth frees the array, so an operation that may grow answers `none` for an
-- array that is gone.
pub mod Valid
pub mod Shift
pub mod Refine
pub mod Faults
pub mod Create
mod Tests
use riak_c_client.Base.{
  ℕ, zero, suc, ◌+◌, ◌-◌, ◌*◌, ◌/◌, ◌%◌, ◌^◌, Bool, true, false, Option, none, some, List,
  replicate, ◌==◌, ltb, ◌&&◌, read_at, write_at, u32_mod, u64_mod, add64, sub64, mul64, lt_int64,
  int_of, if◌then◌else◌, ◌++◌, take, drop,
}
use riak_c_client.Error.{RiakError, eriak_ok, eriak_out_of_memory, eriak_out_of_range}
use riak_c_client.Memory.{
  Heap, Run, out_of_fuel, Cmd, fault, pure, value, ◌>>=◌, ◌>>◌, Config, config_clean_allocate,
  free_if,
}
use riak_c_client.Utils.{array_realloc}

-- `riak_array`
pub record Array : Type 0 where
  pub cfg : Config
  pub length : ℕ
  pub capacity : ℕ
  pub slots : List ℕ

-- sizeof(riak_array) and sizeof(void*)
abbrev pub sizeof_array : ℕ
sizeof_array = 32

abbrev pub sizeof_ptr : ℕ
sizeof_ptr = 8

-- The array that `riak_array_new` fills in: its block has the cells that fit the bytes asked for.
abbrev pub fresh : Config → ℕ → Array
fresh cfg size = record {
  cfg = cfg;
  length = 0;
  capacity = size;
  slots = replicate (mul64 sizeof_ptr size / sizeof_ptr) 0;
}

-- `riak_array_new`
unfoldable pub new : Config → ℕ → Cmd (RiakError × Option Array)
new cfg size = do
  got ← config_clean_allocate (some cfg) sizeof_array
  elim got [
    | true ↦ do
      block ← config_clean_allocate (some cfg) (mul64 sizeof_ptr size)
      elim block [
        | true ↦ pure (eriak_ok, some (fresh cfg size))
        | false ↦ do free_if true; pure (eriak_out_of_memory, none)
      ]
    | false ↦ pure (eriak_out_of_memory, none)
  ]

-- `riak_array_free`
unfoldable pub free : Option Array → Cmd (Unit {0})
free none = pure tt
free (some ra) = do free_if true; free_if true

-- `while (new_cap < size) new_cap *= 2;`
unfoldable pub grow : ℕ → ℕ → ℕ → Option ℕ
grow zero new_cap size = none
grow (suc fuel) new_cap size = elim (ltb new_cap size) [
  | true ↦ grow fuel (mul64 new_cap 2) size
  | false ↦ some new_cap
]

abbrev pub grow_fuel : ℕ
grow_fuel = 65

-- What `riak_array_resize` does with the block that it got.
unfoldable pub regrown : Array → ℕ → Option (List ℕ) → Cmd (RiakError × Option Array)
regrown ra new_cap none = do free (some ra); pure (eriak_out_of_memory, none)
regrown ra new_cap (some block) =
    pure (eriak_ok, some (record ra { capacity = new_cap; slots = block }))

-- `riak_array_resize`
unfoldable pub resize : Array → ℕ → Cmd (RiakError × Option Array)
resize ra size =
    if ltb ra.capacity size
    then elim (grow grow_fuel ra.capacity size) [
      | none ↦ λ h. out_of_fuel
      | some new_cap ↦ do
        block ← array_realloc ra.cfg 0 ra.slots sizeof_ptr ra.capacity new_cap
        regrown ra new_cap block
    ]
    else pure (eriak_ok, some ra)

-- `for (int j = ra->length; j > pos; j--) ra->array[j] = ra->array[j-1];` for `k` rounds from
-- `j = pos + k`. An index of a negative `j` lies outside every block.
unfoldable pub shift_up : ℕ → ℕ → List ℕ → Option (List ℕ)
shift_up zero pos slots = some slots
shift_up (suc k) pos slots = elim (read_at slots (pos + k)) [
  | none ↦ none
  | some v ↦ elim (write_at slots (pos + suc k) v) [
    | none ↦ none
    | some slots' ↦ shift_up k pos slots'
  ]
]

-- `for (int j = pos; j < ra->length; j++) ra->array[j] = ra->array[j+1];` for `k` rounds from `j`.
-- The increment of INT_MAX is undefined.
unfoldable pub shift_down : ℕ → ℕ → List ℕ → Option (List ℕ)
shift_down zero j slots = some slots
shift_down (suc k) j slots = elim (read_at slots (j + 1)) [
  | none ↦ none
  | some v ↦ elim (write_at slots j v) [
    | none ↦ none
    | some slots' ↦ elim (j == 2 ^ 31 - 1) [ true ↦ none | false ↦ shift_down k (j + 1) slots' ]
  ]
]

-- The rest of `riak_array_insert` after the growth.
unfoldable pub place : Array → ℕ → ℕ → Option Array
place ra pos elem =
    let shifted : Option (List ℕ) =
      if lt_int64 0 ra.length && lt_int64 pos ra.length
      then shift_up (int_of ra.length - pos) pos ra.slots
      else some ra.slots in
    elim shifted [
      | none ↦ none
      | some slots ↦ elim (write_at slots pos elem) [
        | none ↦ none
        | some slots' ↦ some (record ra { length = add64 ra.length 1; slots = slots' })
      ]
    ]

-- Runs `next` on an array that has grown; an error is passed on.
unfoldable pub when_grown :
    (Array → Option Array) → RiakError × Option Array → Cmd (RiakError × Option Array)
when_grown next (eriak_ok, some ra) = do ra' ← value (next ra); pure (eriak_ok, some ra')
when_grown next (err, ra) = pure (err, ra)

-- `riak_array_insert`
unfoldable pub insert : Array → ℕ → ℕ → Cmd (RiakError × Option Array)
insert ra pos elem =
    if lt_int64 ra.length pos
    then pure (eriak_out_of_range, some ra)
    else (do r ← resize ra (add64 ra.length 1); when_grown (λ ra'. place ra' pos elem) r)

-- `riak_array_push`
unfoldable pub push : Array → ℕ → Cmd (RiakError × Option Array)
push ra elem = do
  r ← resize ra (add64 ra.length 1)
  when_grown
      (λ ra'. elim (write_at ra'.slots ra'.length elem) [
        | none ↦ none
        | some slots ↦ some (record ra' { length = add64 ra'.length 1; slots = slots })
      ])
      r

-- `riak_array_remove`; `none` is an access outside the block.
unfoldable pub remove : Array → ℕ → Option (RiakError × Array)
remove ra pos =
    let j = int_of pos in
    let rounds : ℕ = if lt_int64 j ra.length then sub64 ra.length j else 0 in
    if lt_int64 (sub64 ra.length 1) pos
    then some (eriak_out_of_range, ra)
    else elim (shift_down rounds j ra.slots) [
      | none ↦ none
      | some slots ↦ some (eriak_ok, record ra { length = sub64 ra.length 1; slots = slots })
    ]

-- `riak_array_pop`: the error, what goes through `elem` and the array.
unfoldable pub pop : Array → Option (RiakError × Option ℕ × Array)
pop ra =
    if lt_int64 0 ra.length
    then elim (read_at ra.slots (sub64 ra.length 1)) [
      | none ↦ none
      | some v ↦ some (eriak_ok, some v, record ra { length = sub64 ra.length 1 })
    ]
    else some (eriak_out_of_range, none, ra)

-- `riak_array_get`
unfoldable pub get : Array → ℕ → Option (RiakError × Option ℕ)
get ra pos =
    if lt_int64 (sub64 ra.length 1) pos
    then some (eriak_out_of_range, none)
    else elim (read_at ra.slots pos) [ none ↦ none | some v ↦ some (eriak_ok, some v) ]

-- `riak_array_set`
unfoldable pub set_elem : Array → ℕ → ℕ → Option (RiakError × Array)
set_elem ra pos elem =
    if lt_int64 (sub64 ra.length 1) pos
    then some (eriak_out_of_range, ra)
    else elim (write_at ra.slots pos elem) [
      | none ↦ none
      | some slots ↦ some (eriak_ok, record ra { slots = slots })
    ]

-- `riak_array_sort`, over what `qsort` does to the first `length` cells with the user's comparer.
unfoldable pub sort : (List ℕ → List ℕ) → Array → Array
sort qsort ra = record ra { slots = qsort (take ra.length ra.slots) ++ drop ra.length ra.slots }
