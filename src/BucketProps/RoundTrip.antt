-- ===== src/BucketProps/RoundTrip.antt =====
-- Bucket properties sent and read back, and their release.
use riak_c_client.Base.{
  total, ◌+◌, ◌≡◌, true, false, Option, none, some, List, map, length, arith, is_some, length-map,
  map-map,
}
use riak_c_client.Error.{eriak_ok}
use riak_c_client.Memory.{Heap, Config, ◌>>=◌}
use riak_c_client.Memory.Returns.{Moved, Returns, one_if}
use riak_c_client.Memory.Returns
use riak_c_client.Memory.Exact.{Gives, pure-Gives, recount, bind-Gives, free_if-Gives}
use riak_c_client.Memory.Rich.{IsRich}
use riak_c_client.Binary
use riak_c_client.Binary.{Binary}
use riak_c_client.Object.Copy.{free_each, free_array}
use riak_c_client.Object.Loops.{free_each-Gives}
use riak_c_client.BucketProps.ModFun.{modfun_free}
use riak_c_client.BucketProps.Hooks.{hook_free, commit_hooks_free}
use riak_c_client.BucketProps.Copy.{
  bucketprops_new_from_pb, bucketprops_free, bucketprops_to_pb_copy,
}
use riak_c_client.BucketProps.View.{
  FunView, HookView, HooksView, unspoken, missing, listed, PropsView, optional, fun_of, hook_of,
  hooks_of, props_of, pb_of, share_bin, share_optional, share_fun, share_hook, share_hooks, share,
}
use riak_c_client.BucketProps.Sent.{bucketprops-Gives}
use riak_c_client.BucketProps.ReadBack.{hook_blocks, hooks_blocks, blocks, new_from_pb-Gives}

pub bin_free-Gives : (b : Binary) (h : Heap) → Gives h tt 0 1 (Binary.free (some (share_bin b)) h)
unfolding Binary.free
bin_free-Gives b h = bind-Gives _ (free_if-Gives false h) λ g. free_if-Gives true g

pub optional-free-Gives :
    (b : Option Binary) (h : Heap)
    → Gives h tt 0 (one_if (is_some b)) (Binary.free (optional (share_optional b)).content h)
unfolding Binary.free
optional-free-Gives none h = pure-Gives _ h
optional-free-Gives (some b) h = bin_free-Gives b h

modfun_free-Gives :
    (f : FunView) (h : Heap) → Gives h tt 0 3 (modfun_free (some (fun_of (share_fun f))) h)
unfolding modfun_free
modfun_free-Gives f h =
    bind-Gives _ (bin_free-Gives f.mod_name h)
      λ g. bind-Gives _ (bin_free-Gives f.function g) λ k. free_if-Gives true k

hook_free-Gives :
    (v : HookView) (h : Heap) → Gives h tt 0 (hook_blocks v) (hook_free (hook_of (share_hook v)) h)
unfolding hook_free
hook_free-Gives v h =
    recount
      (bind-Gives _ (optional-free-Gives v.name h)
        λ g. bind-Gives _ (modfun_free-Gives v.fun g) λ k. free_if-Gives true k)
      (omega arith) (omega arith)

each_free-Gives :
    (vs : List HookView) (h : Heap)
    → Gives h tt 0
        (total hook_blocks vs)
        (free_each hook_free (length vs) (map (λ v. hook_of (share_hook v)) vs) h)
each_free-Gives vs h =
    free_each-Gives (λ v. hook_of (share_hook v)) hook_blocks hook_free hook_free-Gives vs h

listed_free-Gives :
    (hs : List HookView) (h : Heap)
    → Gives h tt 0
        (1 + total hook_blocks hs)
        (free_array hook_free (length hs) (some (map hook_of (map share_hook hs))) h)
unfolding free_array
listed_free-Gives hs h = rw (map-map hook_of share_hook hs) (
    recount (bind-Gives _ (each_free-Gives hs h) λ g. free_if-Gives true g) (omega arith)
      (omega arith))

no_array-Gives : (h : Heap) → Gives h tt 0 0 (free_array hook_free 0 none h)
unfolding free_array free_each
no_array-Gives h = free_if-Gives false h

hooks_free-Gives :
    (v : HooksView) (h : Heap)
    → let hooks = hooks_of (share_hooks v) in
      Gives h tt 0 (hooks_blocks v) (commit_hooks_free hooks.hooks hooks.n_hooks h)
unfolding commit_hooks_free
hooks_free-Gives unspoken h = no_array-Gives h
hooks_free-Gives missing h = no_array-Gives h
hooks_free-Gives (listed hs) h = rw (length-map share_hook hs) (listed_free-Gives hs h)

bucketprops_free-Gives :
    (v : PropsView) (h : Heap)
    → Gives h tt 0 (blocks v) (bucketprops_free (some (props_of (share v))) h)
unfolding bucketprops_free
bucketprops_free-Gives v h =
    recount
      (bind-Gives _ (optional-free-Gives v.backend h) λ g.
        bind-Gives _ (modfun_free-Gives v.chash_keyfun g) λ k.
          bind-Gives _ (modfun_free-Gives v.linkfun k) λ l.
            bind-Gives _ (hooks_free-Gives v.precommit l) λ m.
              bind-Gives _ (hooks_free-Gives v.postcommit m)
                λ n. bind-Gives _ (optional-free-Gives v.search_index n) λ o. free_if-Gives true o)
      (omega arith) (omega arith)

-- With an allocator that always has memory: riak_bucketprops_to_pb_copy of bucket properties whose two
-- functions, and those of their hooks, are set, and then riak_bucketprops_new_from_pb of its message, return
-- success with the same properties in every field, in binaries that share their bytes, save that a number or a
-- Boolean without its flag is cleared.
pub bucketprops_to_pb_copy-new_from_pb :
    {cfg : Config} (v : PropsView) (h : Heap)
    → IsRich cfg
    → Returns
        (λ r g. r ≡ (eriak_ok, some (props_of (share v))))
        ((bucketprops_to_pb_copy cfg (props_of v) >>= λ r. bucketprops_new_from_pb cfg r.1) h)
bucketprops_to_pb_copy-new_from_pb v h rich =
    Returns.mono (bind-Gives _ (bucketprops-Gives rich v h) λ g. new_from_pb-Gives rich false v g)
      λ r g gives. gives.0

-- With an allocator that always has memory: of a message that stands for bucket properties with both
-- functions set, riak_bucketprops_new_from_pb makes properties that riak_bucketprops_free can release, and
-- the release gives back as many blocks as the reading took.
pub bucketprops_new_from_pb-free :
    {cfg : Config} (v : PropsView) (h : Heap)
    → IsRich cfg
    → Returns
        (λ r. Moved h (blocks v) (blocks v))
        ((bucketprops_new_from_pb cfg (pb_of true v) >>= λ r. bucketprops_free r.1) h)
bucketprops_new_from_pb-free v h rich =
    Returns.mono
      (recount (bind-Gives _ (new_from_pb-Gives rich true v h) λ g. bucketprops_free-Gives v g)
        (omega arith) (omega arith))
      λ r g gives. gives.1
