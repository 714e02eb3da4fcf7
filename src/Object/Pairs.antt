-- ===== src/Object/Pairs.antt =====
-- The pairs of src/riak_object.c.
use riak_c_client.Base.{ℕ, true, false, Option, none, some, List}
use riak_c_client.Error.{RiakError}
use riak_c_client.Memory.{Cmd, pure, ◌>>=◌, ◌>>◌, Config, config_clean_allocate, free_if}
use riak_c_client.Binary
use riak_c_client.Binary.{Binary, PbBinary, copy_from_pb}
use riak_c_client.Object.Types.{Flagged, Pair, PbPair, sizeof_pair, sizeof_pb_pair}
use riak_c_client.Object.Copy.{
  bin_to_pb, flagged_to_pb, flagged_from_pb, set_flagged, set_plain, copy_array, free_array,
}

-- A cleared pair, and an initialised `RpbPair`.
abbrev pub no_pair : Pair
no_pair = record { key = none; val = record { has = false; content = none } }

abbrev pub no_pb_binary : PbBinary
no_pb_binary = record { len = 0; data_block = none }

abbrev pub unset_pb : Flagged PbBinary
unset_pb = record { has = false; content = no_pb_binary }

-- `riak_pair_new`
unfoldable pub pair_new : Config → Cmd (Option Pair)
pair_new cfg = do
  got ← config_clean_allocate (some cfg) sizeof_pair
  elim got [ false ↦ pure none | true ↦ pure (some no_pair) ]

-- A round of `riak_pairs_copy_to_pb`
unfoldable pub pair_to_pb : Config → Pair → Cmd (Option PbPair)
pair_to_pb cfg pair = do
  got ← config_clean_allocate (some cfg) sizeof_pb_pair
  elim got [
    | false ↦ pure none
    | true ↦ do
      k ← bin_to_pb pair.key
      v ← flagged_to_pb pair.val unset_pb
      pure (some (record { key = k; val = v }))
  ]

-- `riak_pairs_copy_to_pb`; `none` for ERIAK_OUT_OF_MEMORY.
unfoldable pub pairs_copy_to_pb : Config → List Pair → ℕ → Cmd (Option (List PbPair))
pairs_copy_to_pb cfg pair num_pairs = copy_array cfg (pair_to_pb cfg) num_pairs pair

-- `riak_pairs_free_pb`
unfoldable pub pairs_free_pb : Option (List PbPair) → ℕ → Cmd (Unit {0})
pairs_free_pb pbpair num_pairs = free_array (λ _. free_if true) num_pairs pbpair

-- `riak_pairs_copy_from_pb`; `none` for ERIAK_OUT_OF_MEMORY, with what it has taken not given back.
unfoldable pub pairs_copy_from_pb : Config → PbPair → Cmd (Option Pair)
pairs_copy_from_pb cfg pbpair = do
  got ← config_clean_allocate (some cfg) sizeof_pair
  elim got [
    | false ↦ pure none
    | true ↦ do
      k ← copy_from_pb cfg pbpair.key
      elim k [
        | none ↦ pure none
        | some key ↦ do
          v ← flagged_from_pb cfg pbpair.val
          elim v [
            | none ↦ pure none
            | some val ↦ pure (some (record { key = some key; val = val }))
          ]
      ]
  ]

-- `riak_pairs_copy_array_from_pb`
unfoldable pub pairs_copy_array_from_pb : Config → List PbPair → ℕ → Cmd (Option (List Pair))
pairs_copy_array_from_pb cfg pbpair num_pairs =
    copy_array cfg (pairs_copy_from_pb cfg) num_pairs pbpair

-- A round of `riak_pairs_free`
unfoldable pub pair_free : Pair → Cmd (Unit {0})
pair_free pair = do Binary.free pair.key; Binary.free pair.val.content; free_if true

-- `riak_pairs_free`
unfoldable pub pairs_free : Option (List Pair) → ℕ → Cmd (Unit {0})
pairs_free pair num_pairs = free_array pair_free num_pairs pair

-- `riak_pair_set_key`
unfoldable pub pair_set_key : Config → Pair → Option Binary → Cmd (RiakError × Pair)
pair_set_key cfg pair v = do (err, b) ← set_plain cfg v; pure (err, record pair { key = b })

-- `riak_pair_set_value`
unfoldable pub pair_set_value : Config → Pair → Option Binary → Cmd (RiakError × Pair)
pair_set_value cfg pair v = do
  (err, f) ← set_flagged cfg pair.val v
  pure (err, record pair { val = f })
