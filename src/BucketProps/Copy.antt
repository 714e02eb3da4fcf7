-- ===== src/BucketProps/Copy.antt =====
-- The properties of a bucket to and from Protocol Buffers, in src/riak_bucketprops.c.
use riak_c_client.Base.{true, false, Option, none, some, if◌then◌else◌}
use riak_c_client.Error.{RiakError, eriak_ok, eriak_out_of_memory, failed}
use riak_c_client.Memory.{Cmd, fault, pure, ◌>>=◌, ◌>>◌, Config, cfg_malloc, free_if}
use riak_c_client.Binary
use riak_c_client.Binary.{Binary}
use riak_c_client.Object.Pairs.{unset_pb}
use riak_c_client.Object.Copy.{flagged_to_pb, flagged_from_pb, scalar_copy}
use riak_c_client.BucketProps.Types.{
  CommitHook, PbCommitHook, Hooks, Scalars, BucketProps, PbBucketProps, no_scalars, no_hooks,
  no_props, no_pb_props, sizeof_bucketprops,
}
use riak_c_client.BucketProps.ModFun.{
  modfun_copy_to_pb, modfun_copy_from_pb, modfun_free_pb, modfun_free,
}
use riak_c_client.BucketProps.Hooks.{
  commit_hooks_copy_to_pb, commit_hooks_copy_from_pb, commit_hooks_free_pb, commit_hooks_free,
}

-- `riak_bucketprops_new`
unfoldable pub bucketprops_new : Config → Cmd (Option BucketProps)
bucketprops_new cfg = do
  got ← cfg_malloc cfg sizeof_bucketprops
  elim got [ false ↦ pure none | true ↦ pure (some no_props) ]

-- The numbers and Booleans that are copied before the hooks.
abbrev pub first_scalars : Scalars → Scalars
first_scalars from = record no_scalars {
  n_val = scalar_copy from.n_val no_scalars.n_val;
  allow_mult = scalar_copy from.allow_mult no_scalars.allow_mult;
  last_write_wins = scalar_copy from.last_write_wins no_scalars.last_write_wins;
}

-- All of them.
unfoldable pub all_scalars : Scalars → Scalars
all_scalars from = record {
  n_val = scalar_copy from.n_val no_scalars.n_val;
  allow_mult = scalar_copy from.allow_mult no_scalars.allow_mult;
  last_write_wins = scalar_copy from.last_write_wins no_scalars.last_write_wins;
  old_vclock = scalar_copy from.old_vclock no_scalars.old_vclock;
  young_vclock = scalar_copy from.young_vclock no_scalars.young_vclock;
  big_vclock = scalar_copy from.big_vclock no_scalars.big_vclock;
  small_vclock = scalar_copy from.small_vclock no_scalars.small_vclock;
  pr = scalar_copy from.pr no_scalars.pr;
  r = scalar_copy from.r no_scalars.r;
  w = scalar_copy from.w no_scalars.w;
  pw = scalar_copy from.pw no_scalars.pw;
  dw = scalar_copy from.dw no_scalars.dw;
  rw_quorum = scalar_copy from.rw_quorum no_scalars.rw_quorum;
  basic_quorum = scalar_copy from.basic_quorum no_scalars.basic_quorum;
  notfound_ok = scalar_copy from.notfound_ok no_scalars.notfound_ok;
  search_on = scalar_copy from.search_on no_scalars.search_on;
  repl = scalar_copy from.repl no_scalars.repl;
}

-- The hooks of `riak_bucketprops_to_pb_copy`, once for each kind.
unfoldable pub hooks_to_pb : Config → Hooks CommitHook → Cmd (RiakError × Hooks PbCommitHook)
hooks_to_pb cfg from =
    if from.has_has
    then if from.has
      then (do
        (err, hooks) ← commit_hooks_copy_to_pb cfg from.hooks from.n_hooks
        pure (err, record { n_hooks = from.n_hooks; hooks = hooks; has_has = true; has = true }))
      else pure (eriak_ok, record no_hooks { has_has = true })
    else pure (eriak_ok, no_hooks)

-- The functions, with which `riak_bucketprops_to_pb_copy` ends.
unfoldable pub functions_to_pb :
    Config → PbBucketProps → BucketProps → Cmd (RiakError × PbBucketProps)
functions_to_pb cfg to from = do
  (err, chash_keyfun) ← modfun_copy_to_pb cfg from.chash_keyfun
  (if failed err then pure (err, record to { chash_keyfun = chash_keyfun }) else (do
    (err', linkfun) ← modfun_copy_to_pb cfg from.linkfun
    pure (err', record to { chash_keyfun = chash_keyfun; linkfun = linkfun })))

-- What follows the hooks in `riak_bucketprops_to_pb_copy`.
unfoldable pub rest_to_pb : Config → PbBucketProps → BucketProps → Cmd (RiakError × PbBucketProps)
rest_to_pb cfg to from = do
  backend ← flagged_to_pb from.backend unset_pb
  search_index ← flagged_to_pb from.search_index unset_pb
  functions_to_pb cfg
      (record to {
        scalars = all_scalars from.scalars;
        backend = backend;
        search_index = search_index;
      })
      from

-- `riak_bucketprops_to_pb_copy`: the error, and what the message holds when it returns.
unfoldable pub bucketprops_to_pb_copy : Config → BucketProps → Cmd (RiakError × PbBucketProps)
bucketprops_to_pb_copy cfg from = do
  (err, precommit) ← hooks_to_pb cfg from.precommit
  (let to = record no_pb_props { scalars = first_scalars from.scalars; precommit = precommit } in
      if failed err then pure (err, to) else (do
        (err', postcommit) ← hooks_to_pb cfg from.postcommit
        (if failed err'
            then pure (err', record to { postcommit = postcommit })
            else rest_to_pb cfg (record to { postcommit = postcommit }) from)))

-- The hooks of `riak_bucketprops_new_from_pb`, once for each kind.
unfoldable pub hooks_from_pb : Config → Hooks PbCommitHook → Cmd (RiakError × Hooks CommitHook)
hooks_from_pb cfg from =
    if from.has_has
    then if from.has
      then (do
        (err, hooks) ← commit_hooks_copy_from_pb cfg from.hooks from.n_hooks
        pure (err, record { n_hooks = from.n_hooks; hooks = hooks; has_has = true; has = true }))
      else pure (eriak_ok, record no_hooks { has_has = true })
    else pure (eriak_ok, no_hooks)

-- The functions, with which `riak_bucketprops_new_from_pb` ends.
unfoldable pub functions_from_pb :
    Config → BucketProps → PbBucketProps → Cmd (RiakError × Option BucketProps)
functions_from_pb cfg to from = do
  (err, chash_keyfun) ← modfun_copy_from_pb cfg from.chash_keyfun
  (if failed err then pure (err, some (record to { chash_keyfun = chash_keyfun })) else (do
    (err', linkfun) ← modfun_copy_from_pb cfg from.linkfun
    pure (err', some (record to { chash_keyfun = chash_keyfun; linkfun = linkfun }))))

-- What follows the hooks in `riak_bucketprops_new_from_pb`. Without memory for a binary the block of the
-- properties is given back, and nothing of what it points to.
unfoldable pub rest_from_pb :
    Config → BucketProps → PbBucketProps → Cmd (RiakError × Option BucketProps)
rest_from_pb cfg to from = do
  b ← flagged_from_pb cfg from.backend
  elim b [
    | none ↦ do free_if true; pure (eriak_out_of_memory, none)
    | some backend ↦ do
      s ← flagged_from_pb cfg from.search_index
      elim s [
        | none ↦ do free_if true; pure (eriak_out_of_memory, none)
        | some search_index ↦
            functions_from_pb cfg
              (record to {
                scalars = all_scalars from.scalars;
                backend = backend;
                search_index = search_index;
              })
              from
      ]
  ]

-- `riak_bucketprops_new_from_pb` behind the allocation
unfoldable pub bucketprops_from_pb : Config → PbBucketProps → Cmd (RiakError × Option BucketProps)
bucketprops_from_pb cfg from = do
  (err, precommit) ← hooks_from_pb cfg from.precommit
  (let to = record no_props { scalars = first_scalars from.scalars; precommit = precommit } in
      if failed err then pure (err, some to) else (do
        (err', postcommit) ← hooks_from_pb cfg from.postcommit
        (if failed err'
            then pure (err', some (record to { postcommit = postcommit }))
            else rest_from_pb cfg (record to { postcommit = postcommit }) from)))

-- `riak_bucketprops_new_from_pb`: the error, and what `*target` is.
unfoldable pub bucketprops_new_from_pb :
    Config → PbBucketProps → Cmd (RiakError × Option BucketProps)
bucketprops_new_from_pb cfg from = do
  target ← bucketprops_new cfg
  elim target [ none ↦ pure (eriak_out_of_memory, none) | some _ ↦ bucketprops_from_pb cfg from ]

-- `riak_bucketprops_free`; NULL is read.
unfoldable pub bucketprops_free : Option BucketProps → Cmd (Unit {0})
bucketprops_free none = λ h. fault
bucketprops_free (some prop) = do
  Binary.free prop.backend.content
  modfun_free prop.chash_keyfun
  modfun_free prop.linkfun
  commit_hooks_free prop.precommit.hooks prop.precommit.n_hooks
  commit_hooks_free prop.postcommit.hooks prop.postcommit.n_hooks
  Binary.free prop.search_index.content
  free_if true

-- `riak_bucketprops_free_pb`, of a block.
unfoldable pub bucketprops_free_pb : PbBucketProps → Cmd (Unit {0})
bucketprops_free_pb prop = do
  modfun_free_pb prop.chash_keyfun
  modfun_free_pb prop.linkfun
  commit_hooks_free_pb prop.precommit.hooks prop.precommit.n_hooks
  commit_hooks_free_pb prop.postcommit.hooks prop.postcommit.n_hooks
  free_if true
