-- ===== src/Messages/Put/Sent.antt =====
-- What a put request of src/messages/riak_put.c says of its options.
use riak_c_client.Base.{◌≡◌, refl, Bool, false, some, Bool-cases, inl, inr}
use riak_c_client.Memory.{Heap}
use riak_c_client.Memory.Returns
use riak_c_client.Memory.Returns.{Returns, returns}
use riak_c_client.Binary.{PbBinary}
use riak_c_client.Object.Types.{Flagged, PbContent}
use riak_c_client.Messages.Request.{unset_number, unset_flag}
use riak_c_client.Object.Pairs.{unset_pb}
use riak_c_client.Messages.Carried.{
  Carries, scalar_copy-Carries, CarriesBytes, HasContent, flagged_to_pb-Carries,
}
use riak_c_client.Messages.Put.{PutOptions, PbPutReq, plain_put, only_flag, with_put_options}

-- A condition arrives with its flag and the content false.
pub record IsDropped (from to : Flagged Bool) : Type 0 where
  pub flag : to.has ≡ from.has
  pub never : to.content ≡ false

only_flag-IsDropped : (from : Flagged Bool) → IsDropped from (only_flag from unset_flag)
only_flag-IsDropped from = elim (Bool-cases (from.has)) [
  | inl e ↦ rw e (record { flag = refl; never = refl })
  | inr e ↦ rw e (record { flag = refl; never = refl })
]

-- The ten options that the request carries, and the two that it does not.
pub record IsSent (opts : PutOptions) (putmsg : PbPutReq) : Type 0 where
  pub asis : Carries opts.asis putmsg.asis
  pub dw : Carries opts.dw putmsg.dw
  pub n_val : Carries opts.n_val putmsg.n_val
  pub pw : Carries opts.pw putmsg.pw
  pub return_body : Carries opts.return_body putmsg.return_body
  pub return_head : Carries opts.return_head putmsg.return_head
  pub sloppy_quorum : Carries opts.sloppy_quorum putmsg.sloppy_quorum
  pub timeout : Carries opts.timeout putmsg.timeout
  pub w : Carries opts.w putmsg.w
  pub vclock : CarriesBytes opts.vclock putmsg.vclock
  pub if_none_match : IsDropped opts.if_none_match putmsg.if_none_match
  pub if_not_modified : IsDropped opts.if_not_modified putmsg.if_not_modified

-- For options whose vector clock is there if its flag is set, a put request without options takes
-- them on: ten of them come into it with their flags and contents, the vector clock by its bytes,
-- but the two conditions, `if_none_match` and `if_not_modified`, come with their flags and always
-- with the content false.
pub with_put_options-IsSent :
    (opts : PutOptions) (bucket_type : Flagged PbBinary) (bucket : PbBinary)
    (key : Flagged PbBinary) (content : PbContent) (h : Heap)
    → HasContent opts.vclock
    → Returns
        (λ putmsg g. IsSent opts putmsg)
        (with_put_options (some opts) (plain_put bucket_type bucket key content) h)
unfolding with_put_options
with_put_options-IsSent opts bucket_type bucket key content h full =
    Returns.bind (flagged_to_pb-Carries opts.vclock unset_pb h refl full) λ vclock g carried.
      returns (record {
        asis = scalar_copy-Carries opts.asis unset_flag refl;
        dw = scalar_copy-Carries opts.dw unset_number refl;
        n_val = scalar_copy-Carries opts.n_val unset_number refl;
        pw = scalar_copy-Carries opts.pw unset_number refl;
        return_body = scalar_copy-Carries opts.return_body unset_flag refl;
        return_head = scalar_copy-Carries opts.return_head unset_flag refl;
        sloppy_quorum = scalar_copy-Carries opts.sloppy_quorum unset_flag refl;
        timeout = scalar_copy-Carries opts.timeout unset_number refl;
        w = scalar_copy-Carries opts.w unset_number refl;
        vclock = carried;
        if_none_match = only_flag-IsDropped opts.if_none_match;
        if_not_modified = only_flag-IsDropped opts.if_not_modified;
      })
