-- ===== src/Sync/Answered.antt =====
-- Whole synchronous calls of src/riak.c with their requests and responses.
use mathlib.Core.Path.{subst}
use riak_c_client.Base.{
  ℕ, suc, ◌+◌, ◌^◌, ◌<◌, refl, sym, true, Option, none, some, List, ◌++◌, arith, length,
}
use riak_c_client.Memory.{Heap}
use riak_c_client.Memory.Returns.{Returns, returns}
use riak_c_client.Memory.Rich.{IsRich, bind_known, cfg_malloc-Grants}
use riak_c_client.Connection.{Connection}
use riak_c_client.Binary.{Binary, copy_to_pb}
use riak_c_client.Object.Copy.{bin_to_pb}
use riak_c_client.ServerError.{PbErrorResp}
use riak_c_client.Wire.Read.{Reply, Decode}
use riak_c_client.Wire.Send.{frame, IsSink}
use riak_c_client.Wire.Decode.{message}
use riak_c_client.Wire.Stream.{Answers}
use riak_c_client.Messages.Request.{optional_to_pb}
use riak_c_client.Messages.Acknowledgement.{
  Acknowledged, acknowledged, acknowledge, sizeof_acknowledged,
}
use riak_c_client.Messages.ResetBucket.{
  PbResetBucketReq, msg_rpbsetbucketreq, reset_bucketprops_request_encode,
  reset_bucketprops_response_decode,
}
use riak_c_client.Sync.Call.{Replies, IsAnswered}
use riak_c_client.Sync.Packed.{encode_packed-Encodes, call-packed}
use riak_c_client.Sync.Calls.{reset_bucketprops}

-- The request of a reset, with the type where the bucket belongs, and the bucket where the type belongs.
abbrev pub swapped : Binary → Option Binary → PbResetBucketReq
swapped bucket_type bucket = record {
  bucket_type = optional_to_pb bucket;
  bucket = copy_to_pb bucket_type;
}

-- The operation's decoder pointer is that of a reset.
abbrev pub by_reset : Decode (Unit {0}) Acknowledged
by_reset decoder rop pbresp done = reset_bucketprops_response_decode rop pbresp done

module _ {S : Type 0} (read_cb : S → ℕ → Reply × S) (write_cb : S → List ℕ → ℕ × S)
    (unpack_error : List ℕ → Option PbErrorResp) (fuel self : ℕ) (cxn : Connection)
    (rich : IsRich cxn.config) {taken : S → List ℕ} (sink : IsSink write_cb taken) (io : S)
    (h : Heap) where
  reset-Answers :
      (id : ℕ) (rest : List ℕ)
      → Answers read_cb by_reset unpack_error cxn.config tt none
          (message id rest)
          (some acknowledged)
          true
  unfolding acknowledge
  reset-Answers id rest rop so_far same h =
      bind_known _ (cfg_malloc-Grants (subst IsRich (sym same) rich) sizeof_acknowledged h)
        λ g. returns refl

  -- riak_reset_bucketprops for a type and a bucket, on a connection whose allocator always has
  -- memory and a socket that takes the whole request: the bytes that go out are the message with the
  -- code of a set of bucket properties whose bucket is the given type, and whose type is the given
  -- bucket; a server that answers exactly these bytes with a whole message gets the call to return success.
  pub reset_bucketprops-IsAnswered :
      (pack : PbResetBucketReq → List ℕ) (bucket_type : Binary) (bucket : Option Binary) {id : ℕ}
      {rest : List ℕ}
      → length (pack (swapped bucket_type bucket)) + 1 < 2 ^ 32
      → Replies read_cb taken
          (taken io ++ frame msg_rpbsetbucketreq (pack (swapped bucket_type bucket)))
          id
          rest
      → Returns
          (λ r g. IsAnswered (some acknowledged) r)
          (reset_bucketprops read_cb write_cb by_reset unpack_error
            (suc fuel)
            self
            tt
            cxn
            io
            none
            pack
            (some bucket_type)
            bucket
            h)
  unfolding reset_bucketprops reset_bucketprops_request_encode bin_to_pb
  reset_bucketprops-IsAnswered pack bucket_type bucket {id} {rest} small replies =
      call-packed read_cb write_cb by_reset unpack_error fuel self rich sink io h small replies
        (reset-Answers id rest) _
        (encode_packed-Encodes rich tt msg_rpbsetbucketreq (omega arith)
          (pack (swapped bucket_type bucket)) small _ _)
