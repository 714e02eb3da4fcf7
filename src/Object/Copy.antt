-- ===== src/Object/Copy.antt =====
-- The steps that the copies of src/riak_object.c repeat: one binary, one flagged field, one array.
use riak_c_client.Base.{
  ℕ, zero, suc, true, false, Option, none, some, List, [], ◌∷◌, mul64, if◌then◌else◌, is_some,
}
use riak_c_client.Error.{RiakError, eriak_ok, eriak_out_of_memory}
use riak_c_client.Memory.{Cmd, fault, pure, ◌>>=◌, ◌>>◌, Config, config_clean_allocate, free_if}
use riak_c_client.Binary
use riak_c_client.Binary.{Binary, PbBinary, copy_from_pb, copy_to_pb}
use riak_c_client.Object.Types.{Flagged}

-- `riak_binary_copy_to_pb` of a pointer; NULL is read.
unfoldable pub bin_to_pb : Option Binary → Cmd PbBinary
bin_to_pb none = λ h. fault
bin_to_pb (some b) = pure (copy_to_pb b)

-- `if (from->has_x) { to->has_x = RIAK_TRUE; riak_binary_copy_to_pb(&(to->x), from->x); }`
unfoldable pub flagged_to_pb : Flagged (Option Binary) → Flagged PbBinary → Cmd (Flagged PbBinary)
flagged_to_pb from to =
    if from.has
    then (do b ← bin_to_pb from.content; pure (record { has = true; content = b }))
    else pure to

-- The copy of a number or a Boolean with its flag.
abbrev pub scalar_copy : {A : Type 0} → Flagged A → Flagged A → Flagged A
scalar_copy from to = if from.has then from else to

-- `if (from->has_x) { to->has_x = RIAK_TRUE; to->x = riak_binary_copy_from_pb(cfg, &(from->x)); ... }`
-- into a cleared field; `none` where there is no memory.
unfoldable pub flagged_from_pb : Config → Flagged PbBinary → Cmd (Option (Flagged (Option Binary)))
flagged_from_pb cfg from =
    if from.has
    then (do
      b ← copy_from_pb cfg from.content
      elim b [ none ↦ pure none | some x ↦ pure (some (record { has = true; content = some x })) ])
    else pure (some (record { has = false; content = none }))

-- `x->f = riak_binary_copy(cfg, value)` with its test and the flag. What `f` pointed to is not given
-- back.
unfoldable pub set_flagged :
    Config → Flagged (Option Binary) → Option Binary → Cmd (RiakError × Flagged (Option Binary))
set_flagged cfg field v = do
  b ← Binary.copy cfg v
  elim b [
    | none ↦ pure (eriak_out_of_memory, record field { content = none })
    | some x ↦ pure (eriak_ok, record { has = true; content = some x })
  ]

-- The same for a field without a flag.
unfoldable pub set_plain : Config → Option Binary → Cmd (RiakError × Option Binary)
set_plain cfg v = do
  b ← Binary.copy cfg v
  elim b [ none ↦ pure (eriak_out_of_memory, none) | some x ↦ pure (eriak_ok, some x) ]

module _ {A : Type 0} where
  -- The entries of an array; none behind NULL.
  abbrev pub entries : Option (List A) → List A
  entries none = []
  entries (some xs) = xs

  -- The loop that frees `n` entries.
  unfoldable pub free_each : (A → Cmd (Unit {0})) → ℕ → List A → Cmd (Unit {0})
  free_each one zero xs = pure tt
  free_each one (suc n) [] = λ h. fault
  free_each one (suc n) (x ∷ xs) = do one x; free_each one n xs

  -- The loop and the block of pointers.
  unfoldable pub free_array : (A → Cmd (Unit {0})) → ℕ → Option (List A) → Cmd (Unit {0})
  free_array one n xs = do free_each one n (entries xs); free_if (is_some xs)

module _ {A B : Type 0} where
  -- A loop over `n` entries that stops where one has no memory.
  unfoldable pub each : (A → Cmd (Option B)) → ℕ → List A → Cmd (Option (List B))
  each one zero xs = pure (some [])
  each one (suc n) [] = λ h. fault
  each one (suc n) (x ∷ xs) = do
    y ← one x
    elim y [
      | none ↦ pure none
      | some b ↦ do
        rest ← each one n xs
        elim rest [ none ↦ pure none | some bs ↦ pure (some (b ∷ bs)) ]
    ]

  -- A block of `n` pointers, then the loop. What a failed loop has built stays allocated.
  unfoldable pub copy_array : Config → (A → Cmd (Option B)) → ℕ → List A → Cmd (Option (List B))
  copy_array cfg one n xs = do
    got ← config_clean_allocate (some cfg) (mul64 8 n)
    elim got [ false ↦ pure none | true ↦ each one n xs ]
