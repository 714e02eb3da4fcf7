-- ===== src/Sync/Properties/Tests.antt =====
-- A get and a set of bucket properties, and the theorems about them at a concrete server.
use mathlib.Core.Path.{subst}
use riak_c_client.Base.{
  ℕ, ◌≡◌, refl, sym, true, Option, none, some, List, [], ◌∷◌, ◌++◌, arith, if◌then◌else◌,
}
use riak_c_client.Error.{eriak_ok}
use riak_c_client.Memory.{fault}
use riak_c_client.Memory.Returns.{Returns}
use riak_c_client.Messages.Request.{set_to}
use riak_c_client.BucketProps.Types.{no_scalars}
use riak_c_client.BucketProps.Plain.{PlainView, plain_props}
use riak_c_client.Binary.{cells, copy_to_pb}
use riak_c_client.Operation.{Operation, fresh}
use riak_c_client.ServerError.{payload}
use riak_c_client.BucketProps.Keyless.{keyless}
use riak_c_client.BucketProps.View.{props_of}
use riak_c_client.BucketProps.Tests.{letter, view}
use riak_c_client.Wire.Header.{net_bytes}
use riak_c_client.Wire.Read.{Reply}
use riak_c_client.Wire.Send.{frame}
use riak_c_client.Wire.Decode.{message}
use riak_c_client.Wire.Tests.{keep, no_error, rich-IsRich, keep-IsSink, cxn, start}
use riak_c_client.Messages.Acknowledgement.{Acknowledged, acknowledged}
use riak_c_client.Messages.GetBucket.{
  PbGetBucketReq, PbGetBucketResp, GetBucketResponse, get_bucketprops_response_decode,
}
use riak_c_client.Messages.SetBucket.{PbSetBucketReq, props_pack, set_bucketprops_request_encode}
use riak_c_client.Sync.Answer.{ArrivesWhole}
use riak_c_client.Sync.Call.{Replies, IsAnswered}
use riak_c_client.Sync.Calls.{get_bucketprops, set_bucketprops}
use riak_c_client.Sync.Tests.{talk, twice}
use riak_c_client.Sync.Properties.{
  held, got_props, by_get_props, by_set_props, get_bucketprops-IsAnswered,
  set_bucketprops-IsAnswered, get_bucketprops_response_decode-keyless,
}
use riak_c_client.Sync.Properties.Faults.{set_bucketprops_request_encode-fault}

-- The generated functions, less all but the bucket's bytes.
abbrev pack_get : PbGetBucketReq → List ℕ
pack_get req = cells req.bucket.data_block

abbrev pack_set : PbSetBucketReq → Option (List ℕ)
pack_set req = if props_pack req.props then some (cells req.bucket.data_block) else none

abbrev unpack_props : List ℕ → Option PbGetBucketResp
unpack_props bytes = some (held view)

-- The server's answers: the properties in one byte, and a bare code.
abbrev telling : List ℕ → ℕ → Reply × List ℕ
telling = talk 6 ((0 ∷ 0 ∷ 0 ∷ 2 ∷ []) ∷ (20 ∷ 1 ∷ []) ∷ [])

telling-Replies : Replies telling (λ io. io) ([] ++ frame 19 (5 ∷ [])) 20 (1 ∷ [])
unfolding net_bytes
telling-Replies = record {
  afterwards = twice;
  arrives = λ io e.
      subst (λ x. ArrivesWhole telling x (twice x) 20 (1 ∷ [])) (sym e)
        (record {
          body_at = (0 ∷ 0 ∷ 0 ∷ 2 ∷ 19 ∷ 5 ∷ []) ++ (0 ∷ []);
          byte = omega arith;
          not_error = λ n. ground (arith, n);
          small = omega arith;
          length_read = refl;
          body_read = refl;
        });
}

abbrev obeying : List ℕ → ℕ → Reply × List ℕ
obeying = talk 6 ((0 ∷ 0 ∷ 0 ∷ 1 ∷ []) ∷ (22 ∷ []) ∷ [])

obeying-Replies : Replies obeying (λ io. io) ([] ++ frame 21 (5 ∷ [])) 22 []
unfolding net_bytes
obeying-Replies = record {
  afterwards = twice;
  arrives = λ io e.
      subst (λ x. ArrivesWhole obeying x (twice x) 22 []) (sym e)
        (record {
          body_at = (0 ∷ 0 ∷ 0 ∷ 2 ∷ 21 ∷ 5 ∷ []) ++ (0 ∷ []);
          byte = omega arith;
          not_error = λ n. ground (arith, n);
          small = omega arith;
          length_read = refl;
          body_read = refl;
        });
}

get_bucketprops-IsAnswered_example :
    Returns
      (λ r g. IsAnswered (some (got_props view)) r)
      (get_bucketprops telling keep
        (by_get_props unpack_props)
        no_error
        1
        9
        tt
        cxn
        []
        none
        pack_get
        none
        (some (letter 5))
        start)
unfolding copy_to_pb
get_bucketprops-IsAnswered_example =
    get_bucketprops-IsAnswered telling keep no_error 0 9 cxn rich-IsRich keep-IsSink [] start
      pack_get unpack_props none (letter 5) view (omega arith) telling-Replies (omega arith) refl

-- Three replicas and a backend.
abbrev plain : PlainView
plain = record {
  scalars = record no_scalars { n_val = set_to 3 };
  backend = some (letter 4);
  search_index = none;
}

set_bucketprops-IsAnswered_example :
    Returns
      (λ r g. IsAnswered (some acknowledged) r)
      (set_bucketprops obeying keep by_set_props no_error 1 9 tt cxn [] none pack_set none
        (some (letter 5))
        (some (plain_props plain))
        start)
unfolding copy_to_pb
set_bucketprops-IsAnswered_example =
    set_bucketprops-IsAnswered obeying keep no_error 0 9 cxn rich-IsRich keep-IsSink [] start
      pack_set none (letter 5) plain refl (omega arith) obeying-Replies

abbrev unpack_keyless : List ℕ → Option PbGetBucketResp
unpack_keyless bytes = some (record { props = keyless view })

abbrev getting : Operation (Unit {0}) GetBucketResponse
getting = fresh cxn none none 0

one_byte : payload (message 20 (1 ∷ [])) ≡ some (1 ∷ [])
unfolding payload
one_byte = refl

abbrev putting : Operation (Unit {0}) Acknowledged
putting = fresh cxn none none 0

set_bucketprops_request_encode-fault_example :
    set_bucketprops_request_encode pack_set tt putting none
      (some (letter 5))
      (some (props_of view))
      start
    ≡ fault
set_bucketprops_request_encode-fault_example =
    set_bucketprops_request_encode-fault pack_set tt putting none (letter 5) view start
      (record { refuses = λ req e. rw e refl }) rich-IsRich

get_bucketprops_response_decode-keyless_example :
    Returns
      (λ r g. (r.result ≡ eriak_ok) × (r.response ≡ none))
      (get_bucketprops_response_decode unpack_keyless getting
        (some (message 20 (1 ∷ [])))
        true
        start)
get_bucketprops_response_decode-keyless_example =
    get_bucketprops_response_decode-keyless unpack_keyless getting (message 20 (1 ∷ [])) view true
      start rich-IsRich one_byte refl
