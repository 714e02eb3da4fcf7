-- ===== src/Binary.antt =====
-- src/riak_binary.c: counted byte strings, their comparison and their printing.
--
-- A `riak_binary` is the length, the block that `data` points to (`none` for NULL) and whether the
-- library owns that block. A result of `none` in an `Option` is an access outside a block.
pub mod Order
pub mod Blocks
pub mod Print
pub mod Hex
mod Tests
use riak_c_client.Base.{
  ℕ, zero, suc, ◌+◌, ◌-◌, ◌*◌, ◌/◌, ◌%◌, Bool, true, false, Option, none, some, List, [], ◌∷◌, ◌&&◌,
  ◌==◌, ltb, leb, read_at, write_at, read_run, u32_mod, sub32, int_of, if◌then◌else◌, is_some,
  length, get_elem?, replicate, put_run,
}
use Prim.Native.Nat.{compare, Ordering}
use riak_c_client.Memory.{
  Heap, Run, Cmd, fault, pure, value, ◌>>=◌, ◌>>◌, Config, config_allocate, free_if,
}
use riak_c_client.Utils.{c_string}

-- `_riak_binary`
pub record Binary : Type 0 where
  pub len : ℕ
  pub data_block : Option (List ℕ)
  pub managed : Bool

-- sizeof(riak_binary)
abbrev pub sizeof_binary : ℕ
sizeof_binary = 24

-- What `memcpy(b->data, data, len)` puts into the block of `len` bytes; NULL with nothing to copy
-- is no fault.
unfoldable pub copy_bytes : Option (List ℕ) → ℕ → Option (List ℕ)
copy_bytes none len = if len == 0 then some [] else none
copy_bytes (some block) len = read_run block len

-- `if (data == NULL) len = 0;`
abbrev pub true_len : ℕ → Option (List ℕ) → ℕ
true_len len none = 0
true_len len (some block) = len

-- `riak_binary_new`
unfoldable pub new : Config → ℕ → Option (List ℕ) → Cmd (Option Binary)
new cfg len bytes = do
  b ← config_allocate (some cfg) sizeof_binary
  elim b [
    | true ↦ do
      d ← config_allocate (some cfg) (true_len len bytes)
      elim d [
        | true ↦ do
          copy ← value (copy_bytes bytes (true_len len bytes))
          pure (some (record { len = true_len len bytes; data_block = some copy; managed = true }))
        | false ↦ do free_if true; pure none
      ]
    | false ↦ pure none
  ]

-- The binary that shares the block of its argument.
abbrev pub shallow : ℕ → Option (List ℕ) → Binary
shallow len bytes = record { len = true_len len bytes; data_block = bytes; managed = false }

-- `riak_binary_new_shallow`
unfoldable pub new_shallow : Config → ℕ → Option (List ℕ) → Cmd (Option Binary)
new_shallow cfg len bytes = do
  b ← config_allocate (some cfg) sizeof_binary
  elim b [ true ↦ pure (some (shallow len bytes)) | false ↦ pure none ]

-- `riak_binary_copy`
unfoldable pub copy : Config → Option Binary → Cmd (Option Binary)
copy cfg none = pure none
copy cfg (some bin) = new cfg bin.len bin.data_block

-- `riak_binary_copy_shallow`
unfoldable pub copy_shallow : Config → Binary → Cmd (Option Binary)
copy_shallow cfg bin = do
  b ← config_allocate (some cfg) sizeof_binary
  elim b [ true ↦ pure (some (shallow bin.len bin.data_block)) | false ↦ pure none ]

-- `riak_binary_copy_from_string`; the argument is the block that holds the C string.
unfoldable pub copy_from_string : Config → Option (List ℕ) → Cmd (Option Binary)
copy_from_string cfg none = pure none
copy_from_string cfg (some block) = do s ← value (c_string block); new cfg (length s) (some block)

-- `ProtobufCBinaryData`, the type of protobuf-c.
pub record PbBinary : Type 0 where
  pub len : ℕ
  pub data_block : Option (List ℕ)

-- `riak_binary_copy_from_pb`
unfoldable pub copy_from_pb : Config → PbBinary → Cmd (Option Binary)
copy_from_pb cfg bin = do
  b ← config_allocate (some cfg) sizeof_binary
  elim b [ true ↦ pure (some (shallow bin.len bin.data_block)) | false ↦ pure none ]

-- `riak_binary_copy_to_pb`
unfoldable pub copy_to_pb : Binary → PbBinary
copy_to_pb from = record { len = from.len; data_block = from.data_block }

-- `riak_binary_free`
unfoldable pub free : Option Binary → Cmd (Unit {0})
free none = pure tt
free (some b) = do free_if (b.managed && is_some b.data_block); free_if true

-- `memcmp` of the first `n` bytes, by its sign.
unfoldable pub memcmp : ℕ → List ℕ → List ℕ → Option Ordering
memcmp zero a b = some Ordering.eq
memcmp (suc n) [] b = none
memcmp (suc n) (x ∷ a) [] = none
memcmp (suc n) (x ∷ a) (y ∷ b) = elim (compare x y) [
  | Ordering.eq ↦ memcmp n a b
  | Ordering.lt ↦ some Ordering.lt
  | Ordering.gt ↦ some Ordering.gt
]

-- `memcmp` of two pointers; NULL is fine where nothing is read.
unfoldable pub memcmp_blocks : ℕ → Option (List ℕ) → Option (List ℕ) → Option Ordering
memcmp_blocks n (some a) (some b) = memcmp n a b
memcmp_blocks n a b = if n == 0 then some Ordering.eq else none

-- `riak_binary_compare`, by the sign of its result.
unfoldable pub compare_binary : Binary → Binary → Option Ordering
compare_binary bin1 bin2 =
    if ltb bin2.len bin1.len
    then some Ordering.gt
    else if ltb bin1.len bin2.len
    then some Ordering.lt
    else memcmp_blocks bin1.len bin1.data_block bin2.data_block

-- `riak_binary_compare_string`: the string's length goes through an `int`.
unfoldable pub compare_string : Binary → List ℕ → Option Ordering
compare_string bin block = elim (c_string block) [
  | none ↦ none
  | some s ↦
      if ltb (int_of (length s)) bin.len
      then some Ordering.gt
      else if ltb bin.len (int_of (length s))
      then some Ordering.lt
      else memcmp_blocks bin.len bin.data_block (some block)
]

-- The cells behind a pointer: none behind NULL.
abbrev pub cells : Option (List ℕ) → List ℕ
cells none = []
cells (some block) = block

-- A byte as riak_binary_print shows it: a dot below the space.
unfoldable pub shown : ℕ → ℕ
shown b = if leb 32 b then b else b'.'

-- The loop of `riak_binary_print` from index `i`, with `k` bytes of the binary left and
-- `limit = len-1`.
unfoldable pub print_loop : ℕ → ℕ → ℕ → List ℕ → List ℕ → Option (List ℕ × ℕ)
print_loop zero i limit block target = some (target, i)
print_loop (suc k) i limit block target = elim (ltb i limit) [
  | true ↦ elim (read_at block i) [
    | none ↦ none
    | some b ↦ elim (write_at target i (shown b)) [
      | none ↦ none
      | some target' ↦ print_loop k (suc i) limit block target'
    ]
  ]
  | false ↦ some (target, i)
]

-- `if (len > 0) target[i] = 0;` and the count returned.
unfoldable pub terminate : ℕ → ℕ → List ℕ → ℕ → Option (List ℕ × ℕ)
terminate len at target result =
    if ltb 0 len
    then elim (write_at target at 0) [ none ↦ none | some target' ↦ some (target', result) ]
    else some (target, result)

-- `riak_binary_print`: the block of `target` after it, and the result.
unfoldable pub print : Option Binary → List ℕ → ℕ → Option (List ℕ × ℕ)
print none target len = terminate len 0 target 0
print (some bin) target len =
    elim (print_loop bin.len 0 (sub32 len 1) (cells bin.data_block) target) [
      | none ↦ none
      | some (target', i) ↦ terminate len i target' i
    ]

-- `hex[]`
unfoldable pub hex_digit : ℕ → ℕ
hex_digit n = if ltb n 10 then b'0' + n else b'a' + (n - 10)

-- The loop of `riak_binary_hex_print` from `count`.
unfoldable pub hex_loop : ℕ → ℕ → ℕ → List ℕ → List ℕ → Option (List ℕ × ℕ)
hex_loop zero count limit block target = some (target, count)
hex_loop (suc k) count limit block target = elim (ltb (count * 2) limit) [
  | true ↦ elim (read_at block count) [
    | none ↦ none
    | some b ↦ elim (write_at target (count * 2) (hex_digit (b / 16 % 16))) [
      | none ↦ none
      | some target' ↦ elim (write_at target' (count * 2 + 1) (hex_digit (b % 16))) [
        | none ↦ none
        | some target'' ↦ hex_loop k (suc count) limit block target''
      ]
    ]
  ]
  | false ↦ some (target, count)
]

-- `riak_binary_hex_print`
unfoldable pub hex_print : Option Binary → List ℕ → ℕ → Option (List ℕ × ℕ)
hex_print none target len = terminate len 0 target 0
hex_print (some bin) target len =
    elim (hex_loop bin.len 0 (sub32 len 1) (cells bin.data_block) target) [
      | none ↦ none
      | some (target', count) ↦ terminate len (count * 2) target' (count * 2)
    ]
