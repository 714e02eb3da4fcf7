-- ===== src/Messages/Delete/Sent.antt =====
-- What a delete request of src/messages/riak_delete.c says of its key and its options.
use riak_c_client.Base.{◌≡◌, refl, Option, some}
use riak_c_client.Memory.{Heap}
use riak_c_client.Memory.Returns
use riak_c_client.Memory.Returns.{Returns, returns}
use riak_c_client.Binary.{Binary, copy_to_pb}
use riak_c_client.Object.Pairs.{unset_pb}
use riak_c_client.Object.Copy.{bin_to_pb}
use riak_c_client.Messages.Request.{optional_to_pb, unset_number, unset_flag}
use riak_c_client.Messages.Carried.{
  Carries, scalar_copy-Carries, CarriesBytes, HasContent, flagged_to_pb-Carries,
}
use riak_c_client.Messages.Delete.{DeleteOptions, PbDelReq, with_delete_options, delete_request}

-- The names are the given ones, and the seven options are carried.
pub record IsSent (bucket_type : Option Binary) (bucket key : Binary) (opts : DeleteOptions)
    (delmsg : PbDelReq) : Type 0 where
  pub has_type : delmsg.bucket_type ≡ optional_to_pb bucket_type
  pub in_bucket : delmsg.bucket ≡ copy_to_pb bucket
  pub of_key : delmsg.key ≡ copy_to_pb key
  pub w : Carries opts.w delmsg.w
  pub dw : Carries opts.dw delmsg.dw
  pub pw : Carries opts.pw delmsg.pw
  pub timeout : Carries opts.timeout delmsg.timeout
  pub sloppy_quorum : Carries opts.sloppy_quorum delmsg.sloppy_quorum
  pub n_val : Carries opts.n_val delmsg.n_val
  pub vclock : CarriesBytes opts.vclock delmsg.vclock

-- A delete request for a key in a bucket, with options whose vector clock is there if its flag is set:
-- it names the type, the bucket and the key that were given, and carries each of the seven options
-- with its flag, and with its content where the flag is set.
pub delete_request-IsSent :
    (bucket_type : Option Binary) (bucket key : Binary) (opts : DeleteOptions) (h : Heap)
    → HasContent opts.vclock
    → Returns
        (λ delmsg g. IsSent bucket_type bucket key opts delmsg)
        (delete_request bucket_type (some bucket) (some key) (some opts) h)
unfolding delete_request with_delete_options bin_to_pb
delete_request-IsSent bucket_type bucket key opts h full =
    Returns.bind (flagged_to_pb-Carries opts.vclock unset_pb h refl full) λ vclock g carried.
      returns (record {
        has_type = refl;
        in_bucket = refl;
        of_key = refl;
        w = scalar_copy-Carries opts.w unset_number refl;
        dw = scalar_copy-Carries opts.dw unset_number refl;
        pw = scalar_copy-Carries opts.pw unset_number refl;
        timeout = scalar_copy-Carries opts.timeout unset_number refl;
        sloppy_quorum = scalar_copy-Carries opts.sloppy_quorum unset_flag refl;
        n_val = scalar_copy-Carries opts.n_val unset_number refl;
        vclock = carried;
      })
