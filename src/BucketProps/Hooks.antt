-- ===== src/BucketProps/Hooks.antt =====
-- The commit hooks of src/riak_bucketprops.c.
use riak_c_client.Base.{ℕ, true, false, Option, none, some, List, mul64, if◌then◌else◌}
use riak_c_client.Error.{RiakError, eriak_ok, eriak_out_of_memory, failed}
use riak_c_client.Memory.{Cmd, pure, ◌>>=◌, ◌>>◌, Config, cfg_malloc, free_if}
use riak_c_client.Binary
use riak_c_client.Binary.{Binary}
use riak_c_client.Object.Pairs.{unset_pb}
use riak_c_client.Object.Links.{unset}
use riak_c_client.Object.Copy.{entries, flagged_to_pb, flagged_from_pb, each, free_array, set_plain}
use riak_c_client.BucketProps.Types.{
  ModFun, CommitHook, PbCommitHook, sizeof_commit_hook, sizeof_pb_commit_hook,
}
use riak_c_client.BucketProps.ModFun.{
  modfun_deep_new, modfun_copy_to_pb, modfun_copy_from_pb, modfun_free_pb, modfun_free,
}

abbrev pub no_hook : CommitHook
no_hook = record { modfun = none; name = unset }

-- `riak_commit_hook_new`
unfoldable pub commit_hook_new : Config → Cmd (Option CommitHook)
commit_hook_new cfg = do
  got ← cfg_malloc cfg sizeof_commit_hook
  elim got [ false ↦ pure none | true ↦ pure (some no_hook) ]

-- `riak_commit_hook_new_array`: whether there is its block of NULL pointers, which has the
-- size of so many hooks.
abbrev pub commit_hook_new_array : Config → ℕ → Cmd RiakError
commit_hook_new_array cfg len = do
  got ← cfg_malloc cfg (mul64 sizeof_commit_hook len)
  elim got [ false ↦ pure eriak_out_of_memory | true ↦ pure eriak_ok ]

-- A round of `riak_commit_hooks_copy_to_pb`; `none` for its error. The message is cleared, not initialised.
unfoldable pub hook_to_pb : Config → CommitHook → Cmd (Option PbCommitHook)
hook_to_pb cfg hook = do
  got ← cfg_malloc cfg sizeof_pb_commit_hook
  elim got [
    | false ↦ pure none
    | true ↦ do
      name ← flagged_to_pb hook.name unset_pb
      (err, modfun) ← modfun_copy_to_pb cfg hook.modfun
      pure (
          if failed err then none else some (record { base = false; modfun = modfun; name = name }))
  ]

-- `riak_commit_hooks_copy_to_pb`: the error, and what the target is that was NULL before. What a failed
-- loop has built stays allocated.
unfoldable pub commit_hooks_copy_to_pb :
    Config → Option (List CommitHook) → ℕ → Cmd (RiakError × Option (List PbCommitHook))
commit_hooks_copy_to_pb cfg none num_hooks = pure (eriak_ok, none)
commit_hooks_copy_to_pb cfg (some hook) num_hooks = do
  got ← cfg_malloc cfg (mul64 8 num_hooks)
  elim got [
    | false ↦ pure (eriak_out_of_memory, none)
    | true ↦ do
      pbhook ← each (hook_to_pb cfg) num_hooks hook
      elim pbhook [ none ↦ pure (eriak_out_of_memory, none) | some pbs ↦ pure (eriak_ok, some pbs) ]
  ]

-- A round of `riak_commit_hooks_copy_from_pb`; `none` for its error.
unfoldable pub hook_from_pb : Config → PbCommitHook → Cmd (Option CommitHook)
hook_from_pb cfg pbhook = do
  got ← cfg_malloc cfg sizeof_commit_hook
  elim got [
    | false ↦ pure none
    | true ↦ do
      n ← flagged_from_pb cfg pbhook.name
      elim n [
        | none ↦ pure none
        | some name ↦ do
          (err, modfun) ← modfun_copy_from_pb cfg pbhook.modfun
          pure (if failed err then none else some (record { modfun = modfun; name = name }))
      ]
  ]

-- `riak_commit_hooks_copy_from_pb`: the error, and what the target is that was NULL before.
unfoldable pub commit_hooks_copy_from_pb :
    Config → Option (List PbCommitHook) → ℕ → Cmd (RiakError × Option (List CommitHook))
commit_hooks_copy_from_pb cfg pbhook num_hooks = do
  got ← cfg_malloc cfg (mul64 8 num_hooks)
  elim got [
    | false ↦ pure (eriak_out_of_memory, none)
    | true ↦ do
      hook ← each (hook_from_pb cfg) num_hooks (entries pbhook)
      elim hook [ none ↦ pure (eriak_out_of_memory, none) | some hs ↦ pure (eriak_ok, some hs) ]
  ]

-- `riak_commit_hooks_free_pb`
unfoldable pub commit_hooks_free_pb : Option (List PbCommitHook) → ℕ → Cmd (Unit {0})
commit_hooks_free_pb pbhook num_hooks =
    free_array (λ hook. modfun_free_pb hook.modfun >> free_if true) num_hooks pbhook

-- A round of `riak_commit_hooks_free`
unfoldable pub hook_free : CommitHook → Cmd (Unit {0})
hook_free hook = do Binary.free hook.name.content; modfun_free hook.modfun; free_if true

-- `riak_commit_hooks_free`
unfoldable pub commit_hooks_free : Option (List CommitHook) → ℕ → Cmd (Unit {0})
commit_hooks_free hook num_hooks = free_array hook_free num_hooks hook

-- `riak_commit_hook_set_modfun`
unfoldable pub commit_hook_set_modfun :
    Config → CommitHook → Option ModFun → Cmd (RiakError × CommitHook)
commit_hook_set_modfun cfg hook v = do
  m ← modfun_deep_new cfg v
  elim m [
    | none ↦ pure (eriak_out_of_memory, record hook { modfun = none })
    | some x ↦ pure (eriak_ok, record hook { modfun = some x })
  ]

-- `riak_commit_hook_set_name`: the flag is set whatever becomes of the copy.
unfoldable pub commit_hook_set_name :
    Config → CommitHook → Option Binary → Cmd (RiakError × CommitHook)
commit_hook_set_name cfg hook v = do
  (err, b) ← set_plain cfg v
  pure (err, record hook { name = record { has = true; content = b } })
