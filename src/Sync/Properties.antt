-- ===== src/Sync/Properties.antt =====
-- riak_get_bucketprops and riak_set_bucketprops of src/riak.c, with their requests and responses.
pub mod Faults
mod Tests
use mathlib.Core.Path.{subst}
use riak_c_client.Base.{
  ℕ, suc, ◌+◌, ◌^◌, ◌<◌, ◌≡◌, refl, sym, ap, ◌∙◌, Bool, true, false, ◌&&◌, Option, none, some, List,
  ◌++◌, arith, length,
}
use riak_c_client.Error.{eriak_ok}
use riak_c_client.Memory.{Heap, Run, Cmd, fault, and_then}
use riak_c_client.Memory.Returns
use riak_c_client.Memory.Returns.{Returns, returns, free_if-Returns}
use riak_c_client.Memory.Rich.{IsRich, bind_known, cfg_malloc-Grants}
use riak_c_client.Connection.{Connection}
use riak_c_client.Binary.{Binary, copy_to_pb}
use riak_c_client.Message.{PbMessage}
use riak_c_client.Operation.{Operation, get_config}
use riak_c_client.Object.Copy.{bin_to_pb, entries}
use riak_c_client.ServerError.{PbErrorResp, payload}
use riak_c_client.BucketProps.View.{PropsView, props_of, pb_of, share}
use riak_c_client.BucketProps.Plain.{PlainView, plain_props, pb_plain, plain-Gives}
use riak_c_client.BucketProps.Sent.{bucketprops-Gives}
use riak_c_client.BucketProps.ReadBack.{new_from_pb-Gives}
use riak_c_client.BucketProps.Keyless.{keyless, keyless-Fails}
use riak_c_client.Wire.Read.{Reply, Decode}
use riak_c_client.Wire.Send.{frame, IsSink}
use riak_c_client.Wire.Decode.{message}
use riak_c_client.Wire.Stream.{Answers}
use riak_c_client.Messages.Request.{optional_to_pb}
use riak_c_client.Messages.Response.{unpacked}
use riak_c_client.Messages.Listing.Streamed.{payload-message}
use riak_c_client.Messages.Acknowledgement.{
  Acknowledged, acknowledged, acknowledge, sizeof_acknowledged,
}
use riak_c_client.Messages.ResetBucket.{msg_rpbsetbucketreq}
use riak_c_client.Messages.GetBucket.{
  PbGetBucketReq, PbGetBucketResp, GetBucketResponse, msg_rpbgetbucketreq,
  sizeof_get_bucketprops_response, with_props, get_bucketprops_response,
  get_bucketprops_request_encode, get_bucketprops_response_decode,
}
use riak_c_client.Messages.SetBucket.{
  PbSetBucketReq, props_message, NeedsBase, hooks_pack, set_bucketprops_request_encode,
  set_bucketprops_response_decode,
}
use riak_c_client.Sync.Call.{Encodes, Replies, IsAnswered}
use riak_c_client.Sync.Packed.{request, encode_packed-Encodes, call-packed}
use riak_c_client.Sync.Calls.{get_bucketprops, set_bucketprops}

-- The two requests.
abbrev pub props_request : Option Binary → Binary → PbGetBucketReq
props_request bucket_type bucket = record {
  bucket_type = optional_to_pb bucket_type;
  bucket = copy_to_pb bucket;
}

abbrev pub setting : Option Binary → Binary → PlainView → PbSetBucketReq
setting bucket_type bucket v = record {
  bucket_type = optional_to_pb bucket_type;
  bucket = copy_to_pb bucket;
  props = pb_plain v;
}

-- The message that holds these properties, and the response that is made of it.
abbrev pub held : PropsView → PbGetBucketResp
held v = record { props = pb_of true v }

abbrev pub got_props : PropsView → GetBucketResponse
got_props v = record { props = some (props_of (share v)); internal = held v }

-- The operations' decoder pointers.
abbrev pub by_get_props : (List ℕ → Option PbGetBucketResp) → Decode (Unit {0}) GetBucketResponse
by_get_props unpack decoder rop pbresp done = get_bucketprops_response_decode unpack rop pbresp done

abbrev pub by_set_props : Decode (Unit {0}) Acknowledged
by_set_props decoder rop pbresp done = set_bucketprops_response_decode rop pbresp done

module _ {S : Type 0} (read_cb : S → ℕ → Reply × S) (write_cb : S → List ℕ → ℕ × S)
    (unpack_error : List ℕ → Option PbErrorResp) (fuel self : ℕ) (cxn : Connection)
    (rich : IsRich cxn.config) {taken : S → List ℕ} (sink : IsSink write_cb taken) (io : S)
    (h : Heap) where
  props-Answers :
      (unpack : List ℕ → Option PbGetBucketResp) (v : PropsView) (id : ℕ) (rest : List ℕ)
      → suc (length rest) < 2 ^ 32
      → unpack rest ≡ some (held v)
      → Answers read_cb
          (by_get_props unpack)
          unpack_error
          cxn.config
          tt
          none
          (message id rest)
          (some (got_props v))
          true
  unfolding get_bucketprops_response_decode unpacked get_bucketprops_response with_props
  props-Answers unpack v id rest small unpacks rop so_far same h =
      let rich' = subst IsRich (sym same) rich in
      rw (payload-message id rest small, unpacks, get_bucketprops_response_decode, unpacked)
        (bind_known _ (cfg_malloc-Grants rich' sizeof_get_bucketprops_response h) λ g.
          bind_known _ (Returns.mono (new_from_pb-Gives rich' true v g) λ r k gives. gives.0)
            λ k. returns refl)

  acknowledged-Answers :
      (id : ℕ) (rest : List ℕ)
      → Answers read_cb by_set_props unpack_error cxn.config tt none
          (message id rest)
          (some acknowledged)
          true
  unfolding acknowledge
  acknowledged-Answers id rest rop so_far same h =
      bind_known _ (cfg_malloc-Grants (subst IsRich (sym same) rich) sizeof_acknowledged h)
        λ g. returns refl

  set_props-Encodes :
      (pack : PbSetBucketReq → Option (List ℕ)) (bucket_type : Option Binary) (bucket : Binary)
      (v : PlainView) {bytes : List ℕ}
      → pack (setting bucket_type bucket v) ≡ some bytes
      → length bytes + 1 < 2 ^ 32
      → Encodes {R = Acknowledged} cxn (request msg_rpbsetbucketreq bytes) tt (λ rop.
        set_bucketprops_request_encode pack tt rop bucket_type (some bucket) (some (plain_props v)))
  unfolding set_bucketprops_request_encode bin_to_pb props_message
  set_props-Encodes pack bucket_type bucket v {bytes} packs small h =
      bind_known _ (Returns.mono (plain-Gives cxn.config v h) λ r g gives. gives.0) λ g.
        rw packs (encode_packed-Encodes rich tt msg_rpbsetbucketreq (omega arith) bytes small _ _ g)

  -- riak_get_bucketprops for a bucket, with a type or not, on a connection whose allocator always has
  -- memory and a socket that takes the whole request: if the server answers exactly the message of
  -- this request with a whole message that unpacks to properties whose functions are set, then the call
  -- returns success with these properties, in every field.
  pub get_bucketprops-IsAnswered :
      (pack : PbGetBucketReq → List ℕ) (unpack : List ℕ → Option PbGetBucketResp)
      (bucket_type : Option Binary) (bucket : Binary) (v : PropsView) {id : ℕ} {rest : List ℕ}
      → length (pack (props_request bucket_type bucket)) + 1 < 2 ^ 32
      → Replies read_cb taken
          (taken io ++ frame msg_rpbgetbucketreq (pack (props_request bucket_type bucket)))
          id
          rest
      → suc (length rest) < 2 ^ 32
      → unpack rest ≡ some (held v)
      → Returns
          (λ r g. IsAnswered (some (got_props v)) r)
          (get_bucketprops read_cb write_cb
            (by_get_props unpack)
            unpack_error
            (suc fuel)
            self
            tt
            cxn
            io
            none
            pack
            bucket_type
            (some bucket)
            h)
  unfolding get_bucketprops get_bucketprops_request_encode bin_to_pb
  get_bucketprops-IsAnswered pack unpack bucket_type bucket v {id} {rest} small replies fits
        unpacks =
      call-packed read_cb write_cb (by_get_props unpack) unpack_error fuel self rich sink io h small
        replies (props-Answers unpack v id rest fits unpacks) _
        (encode_packed-Encodes rich tt msg_rpbgetbucketreq (omega arith)
          (pack (props_request bucket_type bucket)) small _ _)

  -- riak_set_bucketprops for a bucket, with a type or not, and for properties without hooks and without functions,
  -- on a connection whose allocator always has memory and a socket that takes the whole request: the bytes that go
  -- out are what the generated packer writes of the message that holds every other field of the properties, a
  -- number or a Boolean where its flag is set; a server that answers exactly these bytes with a whole message gets
  -- the call to return success.
  pub set_bucketprops-IsAnswered :
      (pack : PbSetBucketReq → Option (List ℕ)) (bucket_type : Option Binary) (bucket : Binary)
      (v : PlainView) {bytes : List ℕ} {id : ℕ} {rest : List ℕ}
      → pack (setting bucket_type bucket v) ≡ some bytes
      → length bytes + 1 < 2 ^ 32
      → Replies read_cb taken (taken io ++ frame msg_rpbsetbucketreq bytes) id rest
      → Returns
          (λ r g. IsAnswered (some acknowledged) r)
          (set_bucketprops read_cb write_cb by_set_props unpack_error
            (suc fuel)
            self
            tt
            cxn
            io
            none
            pack
            bucket_type
            (some bucket)
            (some (plain_props v))
            h)
  unfolding set_bucketprops
  set_bucketprops-IsAnswered pack bucket_type bucket v {bytes} {id} {rest} packs small replies =
      call-packed read_cb write_cb by_set_props unpack_error fuel self rich sink io h small replies
        (acknowledged-Answers id rest) _ (set_props-Encodes pack bucket_type bucket v packs small)

-- With an allocator that always has memory, a response whose message has bucket properties without a hash
-- function, and unpacks: the decoder returns success, with NULL for the response.
pub get_bucketprops_response_decode-keyless :
    {D : Type 0} (unpack : List ℕ → Option PbGetBucketResp) (rop : Operation D GetBucketResponse)
    (pbresp : PbMessage) (v : PropsView) {bytes : List ℕ} (done : Bool) (h : Heap)
    → IsRich (get_config rop)
    → payload pbresp ≡ some bytes
    → unpack bytes ≡ some (record { props = keyless v })
    → Returns
        (λ r g. (r.result ≡ eriak_ok) × (r.response ≡ none))
        (get_bucketprops_response_decode unpack rop (some pbresp) done h)
unfolding get_bucketprops_response_decode unpacked get_bucketprops_response with_props
get_bucketprops_response_decode-keyless unpack rop pbresp v done h rich read unpacks =
    rw (read, unpacks, get_bucketprops_response_decode, unpacked)
      (bind_known _ (cfg_malloc-Grants rich sizeof_get_bucketprops_response h) λ g.
        bind_known _ (keyless-Fails rich v g)
          λ k. Returns.bind (free_if-Returns true k) λ r l m. returns (refl, refl))
