-- ===== src/BucketProps/Tests.antt =====
-- Bucket properties with a hook, and the theorems about them at these.
use riak_c_client.Base.{ℕ, ◌+◌, ◌≡◌, ◌≢◌, ◌↔◌, refl, true, none, some, [], ◌∷◌, arith}
use riak_c_client.Error.{eriak_ok}
use riak_c_client.Memory.{◌>>=◌}
use riak_c_client.Memory.Returns.{Returns, Moved}
use riak_c_client.Binary.{Binary}
use riak_c_client.Messages.Request.{set_to}
use riak_c_client.Wire.Tests.{rich, rich-IsRich, start}
use riak_c_client.BucketProps.Types.{no_scalars}
use riak_c_client.BucketProps.Copy.{
  bucketprops_to_pb_copy, bucketprops_new_from_pb, bucketprops_free,
}
use riak_c_client.BucketProps.Quorum.{
  one, quorum, all, default, outside, uint32_max, bucketprops_quorum, bucketprops_quorum-names,
}
use riak_c_client.BucketProps.View.{FunView, missing, listed, PropsView, props_of, pb_of, share}
use riak_c_client.BucketProps.ReadBack.{blocks}
use riak_c_client.BucketProps.RoundTrip.{
  bucketprops_to_pb_copy-new_from_pb, bucketprops_new_from_pb-free,
}

abbrev pub letter : ℕ → Binary
letter c = record { len = 1; data_block = some (c ∷ []); managed = true }

abbrev pub fun : FunView
fun = record { mod_name = letter 1; function = letter 2 }

-- Three replicas, one precommit hook with a name, no postcommit hook, and a backend.
abbrev pub view : PropsView
view = record {
  scalars = record no_scalars { n_val = set_to 3; allow_mult = set_to true };
  precommit = listed (record { fun = fun; name = some (letter 3) } ∷ []);
  postcommit = missing;
  chash_keyfun = fun;
  linkfun = fun;
  backend = some (letter 4);
  search_index = none;
}

bucketprops_to_pb_copy-new_from_pb_example :
    Returns
      (λ r g. r ≡ (eriak_ok, some (props_of (share view))))
      ((bucketprops_to_pb_copy rich (props_of view) >>= λ r. bucketprops_new_from_pb rich r.1)
        start)
bucketprops_to_pb_copy-new_from_pb_example =
    bucketprops_to_pb_copy-new_from_pb view start rich-IsRich

bucketprops_new_from_pb-free_example :
    Returns
      (λ r. Moved start (blocks view) (blocks view))
      ((bucketprops_new_from_pb rich (pb_of true view) >>= λ r. bucketprops_free r.1) start)
bucketprops_new_from_pb-free_example = bucketprops_new_from_pb-free view start rich-IsRich

blocks-view : blocks view ≡ 14
blocks-view = refl

-- The code of the default quorum is not given its name.
bucketprops_quorum-names_example :
    let q : ℕ = 4294967291 in
    ((bucketprops_quorum q ≡ one) ↔ (q + 1 ≡ uint32_max))
    × ((bucketprops_quorum q ≡ quorum) ↔ (q + 2 ≡ uint32_max))
    × ((bucketprops_quorum q ≡ all) ↔ (q + 3 ≡ uint32_max))
    × (bucketprops_quorum q ≢ default)
    × (bucketprops_quorum q ≢ outside)
bucketprops_quorum-names_example = bucketprops_quorum-names 4294967291 (omega arith)
