-- ===== src/BucketProps/Sent.antt =====
-- The message that riak_bucketprops_to_pb_copy of src/riak_bucketprops.c makes of bucket properties.
use riak_c_client.Base.{false, total, ℕ, ◌+◌, Option, none, some, length, mul64, arith}
use riak_c_client.Error.{eriak_ok}
use riak_c_client.Memory.{Heap, Config}
use riak_c_client.Memory.Exact.{Gives, pure-Gives, recount, bind-Gives, cfg_malloc-Gives}
use riak_c_client.Memory.Rich.{IsRich}
use riak_c_client.Binary.{Binary, copy_to_pb}
use riak_c_client.Object.Copy.{bin_to_pb, flagged_to_pb}
use riak_c_client.Object.Loops.{each-Gives}
use riak_c_client.Object.Pairs.{unset_pb}
use riak_c_client.BucketProps.Types.{PbBucketProps, sizeof_pb_modfun, sizeof_pb_commit_hook}
use riak_c_client.BucketProps.ModFun.{modfun_copy_to_pb}
use riak_c_client.BucketProps.Hooks.{hook_to_pb, commit_hooks_copy_to_pb}
use riak_c_client.BucketProps.Copy.{
  all_scalars, hooks_to_pb, functions_to_pb, rest_to_pb, bucketprops_to_pb_copy,
}
use riak_c_client.BucketProps.View.{
  FunView, HookView, HooksView, unspoken, missing, listed, PropsView, optional, fun_of, hook_of,
  hooks_of, props_of, pb_bin, pb_optional, pb_fun, pb_hook, pb_hooks, pb_of,
}

pub bin_to_pb-Gives : (b : Binary) (h : Heap) → Gives h (pb_bin b) 0 0 (bin_to_pb (some b) h)
unfolding bin_to_pb copy_to_pb
bin_to_pb-Gives b h = pure-Gives (pb_bin b) h

pub optional-Gives :
    (b : Option Binary) (h : Heap)
    → Gives h (pb_optional b) 0 0 (flagged_to_pb (optional b) unset_pb h)
unfolding flagged_to_pb
optional-Gives none h = pure-Gives unset_pb h
optional-Gives (some b) h = bind-Gives _ (bin_to_pb-Gives b h) λ g. pure-Gives _ g

-- The blocks of the hooks of one kind.
abbrev pub hook_messages : HooksView → ℕ
hook_messages unspoken = 0
hook_messages missing = 0
hook_messages (listed hs) = 1 + total (λ v. 2) hs

-- The blocks of a message.
abbrev pub messages : PropsView → ℕ
messages v = hook_messages v.precommit + (hook_messages v.postcommit + 2)

module _ {cfg : Config} (rich : IsRich cfg) where
  modfun-Gives :
      (f : FunView) (h : Heap)
      → Gives h (eriak_ok, some (pb_fun false f)) 1 0 (modfun_copy_to_pb cfg (some (fun_of f)) h)
  unfolding modfun_copy_to_pb
  modfun-Gives f h = bind-Gives _ (cfg_malloc-Gives rich sizeof_pb_modfun h) λ g.
      bind-Gives _ (bin_to_pb-Gives f.mod_name g)
        λ k. bind-Gives _ (bin_to_pb-Gives f.function k) λ l. pure-Gives _ l

  hook-Gives :
      (v : HookView) (h : Heap)
      → Gives h (some (pb_hook false v)) 2 0 (hook_to_pb cfg (hook_of v) h)
  unfolding hook_to_pb
  hook-Gives v h = bind-Gives _ (cfg_malloc-Gives rich sizeof_pb_commit_hook h) λ g.
      bind-Gives _ (optional-Gives v.name g)
        λ k. bind-Gives _ (modfun-Gives v.fun k) λ l. pure-Gives _ l

  hooks-Gives :
      (v : HooksView) (h : Heap)
      → Gives h (eriak_ok, pb_hooks false v) (hook_messages v) 0 (hooks_to_pb cfg (hooks_of v) h)
  unfolding hooks_to_pb commit_hooks_copy_to_pb
  hooks-Gives unspoken h = pure-Gives _ h
  hooks-Gives missing h = pure-Gives _ h
  hooks-Gives (listed hs) h =
      recount
        (bind-Gives _
          (bind-Gives _ (cfg_malloc-Gives rich (mul64 8 (length hs)) h) λ g.
            bind-Gives _ (each-Gives hook_of (pb_hook false) (λ v. 2) _ hook-Gives hs g)
              λ k. pure-Gives _ k)
          λ l. pure-Gives _ l)
        (omega arith) (omega arith)

  functions-Gives :
      (v : PropsView) (to : PbBucketProps) (h : Heap)
      → Gives h
          (
            eriak_ok,
            record to {
              chash_keyfun = some (pb_fun false v.chash_keyfun);
              linkfun = some (pb_fun false v.linkfun);
            },
          )
          2
          0
          (functions_to_pb cfg to (props_of v) h)
  unfolding functions_to_pb
  functions-Gives v to h =
      bind-Gives _ (modfun-Gives v.chash_keyfun h)
        λ g. bind-Gives _ (modfun-Gives v.linkfun g) λ k. pure-Gives _ k

  pub bucketprops-Gives :
      (v : PropsView) (h : Heap)
      → Gives h (eriak_ok, pb_of false v) (messages v) 0 (bucketprops_to_pb_copy cfg (props_of v) h)
  unfolding bucketprops_to_pb_copy rest_to_pb all_scalars
  bucketprops-Gives v h = bind-Gives _ (hooks-Gives v.precommit h) λ g.
      bind-Gives _ (hooks-Gives v.postcommit g) λ k.
        bind-Gives _ (optional-Gives v.backend k)
          λ l. bind-Gives _ (optional-Gives v.search_index l) λ m. functions-Gives v _ m
