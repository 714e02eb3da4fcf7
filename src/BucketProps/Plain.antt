-- ===== src/BucketProps/Plain.antt =====
-- The message that riak_bucketprops_to_pb_copy of src/riak_bucketprops.c makes of bucket properties without hooks and
-- without functions.
use riak_c_client.Base.{Option}
use riak_c_client.Error.{eriak_ok}
use riak_c_client.Memory.{Heap, Config}
use riak_c_client.Memory.Exact.{Gives, pure-Gives, bind-Gives}
use riak_c_client.Binary.{Binary}
use riak_c_client.BucketProps.Types.{Scalars, BucketProps, PbBucketProps, no_props, no_pb_props}
use riak_c_client.BucketProps.ModFun.{modfun_copy_to_pb}
use riak_c_client.BucketProps.Copy.{
  all_scalars, hooks_to_pb, functions_to_pb, rest_to_pb, bucketprops_to_pb_copy,
}
use riak_c_client.BucketProps.View.{optional, pb_optional, seen_scalars}
use riak_c_client.BucketProps.Sent.{optional-Gives}

pub record PlainView : Type 0 where
  pub scalars : Scalars
  pub backend : Option Binary
  pub search_index : Option Binary

abbrev pub plain_props : PlainView → BucketProps
plain_props v = record no_props {
  scalars = v.scalars;
  backend = optional v.backend;
  search_index = optional v.search_index;
}

abbrev pub pb_plain : PlainView → PbBucketProps
pb_plain v = record no_pb_props {
  scalars = seen_scalars v.scalars;
  backend = pb_optional v.backend;
  search_index = pb_optional v.search_index;
}

pub plain-Gives :
    (cfg : Config) (v : PlainView) (h : Heap)
    → Gives h (eriak_ok, pb_plain v) 0 0 (bucketprops_to_pb_copy cfg (plain_props v) h)
unfolding bucketprops_to_pb_copy rest_to_pb all_scalars hooks_to_pb functions_to_pb
    modfun_copy_to_pb
plain-Gives cfg v h =
    bind-Gives _ (optional-Gives v.backend h)
      λ g. bind-Gives _ (optional-Gives v.search_index g) λ k. pure-Gives _ k
