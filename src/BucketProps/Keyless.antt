-- ===== src/BucketProps/Keyless.antt =====
-- A message of bucket properties without a hash function, read by riak_bucketprops_new_from_pb of
-- src/riak_bucketprops.c.
use riak_c_client.Base.{true, ◌≡◌, none, some}
use riak_c_client.Error.{eriak_out_of_memory}
use riak_c_client.Memory.{Heap, Config}
use riak_c_client.Memory.Returns
use riak_c_client.Memory.Returns.{Returns, one_if}
use riak_c_client.Memory.Exact.{Gives, pure-Gives, bind-Gives, cfg_malloc-Gives}
use riak_c_client.Memory.Rich.{IsRich}
use riak_c_client.BucketProps.Types.{BucketProps, PbBucketProps, sizeof_modfun, sizeof_bucketprops}
use riak_c_client.BucketProps.ModFun.{modfun_copy_from_pb}
use riak_c_client.BucketProps.Copy.{
  all_scalars, functions_from_pb, rest_from_pb, bucketprops_new, bucketprops_from_pb,
  bucketprops_new_from_pb,
}
use riak_c_client.BucketProps.View.{seen_scalars, PropsView, props_of, pb_of, share}
use riak_c_client.BucketProps.ReadBack.{all_scalars-seen, hooks-Gives, optional-Gives}

-- A message like that of these properties, but without a hash function.
abbrev pub keyless : PropsView → PbBucketProps
keyless v = record (pb_of true v) { chash_keyfun = none }

-- What is left of properties whose reading ends at a missing hash function.
abbrev pub unfinished : PropsView → BucketProps
unfinished v = record (props_of (share v)) { chash_keyfun = none; linkfun = none }

module _ {cfg : Config} (rich : IsRich cfg) where
  keyless_functions-Gives :
      (v : PropsView) (h : Heap)
      → Gives h
          (eriak_out_of_memory, some (unfinished v))
          1
          0
          (functions_from_pb cfg
            (record (unfinished v) { scalars = all_scalars (seen_scalars v.scalars) })
            (keyless v)
            h)
  unfolding functions_from_pb modfun_copy_from_pb
  keyless_functions-Gives v h = rw (all_scalars-seen v.scalars) (
      bind-Gives _ (bind-Gives _ (cfg_malloc-Gives rich sizeof_modfun h) λ g. pure-Gives _ g)
        λ k. pure-Gives _ k)

  -- The reading of such a message ends with an error.
  pub keyless-Fails :
      (v : PropsView) (h : Heap)
      → Returns
          (λ r g. r ≡ (eriak_out_of_memory, some (unfinished v)))
          (bucketprops_new_from_pb cfg (keyless v) h)
  unfolding bucketprops_new_from_pb bucketprops_new bucketprops_from_pb rest_from_pb
  keyless-Fails v h =
      Returns.mono
        (bind-Gives _
          (bind-Gives _ (cfg_malloc-Gives rich sizeof_bucketprops h) λ g. pure-Gives _ g)
          λ k. bind-Gives _ (hooks-Gives rich true v.precommit k) λ l.
            bind-Gives _ (hooks-Gives rich true v.postcommit l) λ m.
              bind-Gives _ (optional-Gives rich v.backend m) λ n.
                bind-Gives _ (optional-Gives rich v.search_index n)
                  λ o. keyless_functions-Gives v o)
        λ r g gives. gives.0
