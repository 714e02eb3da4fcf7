-- ===== src/Messages/Get/Tests.antt =====
-- A get response of one object, at a concrete message.
use riak_c_client.Base.{ℕ, ◌≡◌, refl, true, false, Option, none, some, List, [], ◌∷◌, arith}
use riak_c_client.Memory.{config_allocate, config_clean_allocate, call_malloc}
use riak_c_client.Memory.Returns.{Returns, returns}
use riak_c_client.Binary.{Binary, copy_from_pb}
use riak_c_client.Operation.{Operation, fresh}
use riak_c_client.ServerError.{payload}
use riak_c_client.Object.Types.{RiakObject, PbContent}
use riak_c_client.Object.Copy.{flagged_from_pb}
use riak_c_client.Object.Rows.{no_row, row}
use riak_c_client.Object.Content.{
  no_object, object_new_from_pb, object_new, object_from_pb, arrays_from_pb, copy_counted,
}
use riak_c_client.Wire.Decode.{message}
use riak_c_client.Wire.Tests.{rich, rich-IsRich, cxn, start}
use riak_c_client.Messages.Request.{unset_flag, set_to}
use riak_c_client.Messages.Put.{no_content}
use riak_c_client.Messages.Get.Reply.{PbGetResp, GetResponse, get_response_decode}
use riak_c_client.Messages.Get.Fetched.{
  Reads, HasNames, fetched_result, get_response_decode-fetched,
}

abbrev content : PbContent
content = record no_content { obj_value = record { len = 1; data_block = some (9 ∷ []) } }

abbrev object : RiakObject
object = record no_object {
  obj_value = some (record { len = 1; data_block = some (9 ∷ []); managed = false });
}

content-Reads : Reads rich content object
unfolding object_new_from_pb object_new object_from_pb copy_from_pb flagged_from_pb arrays_from_pb
    copy_counted config_allocate config_clean_allocate call_malloc
content-Reads h = returns refl

abbrev resp : PbGetResp
resp = record {
  content = content ∷ [];
  vclock = set_to (record { len = 1; data_block = some (3 ∷ []) });
  unchanged = unset_flag;
}

abbrev unpack_resp : List ℕ → Option PbGetResp
unpack_resp bytes = some resp

-- The operation of a get of a key in a bucket without a type.
abbrev bucket : Binary
bucket = record { len = 1; data_block = some (4 ∷ []); managed = true }

abbrev getting : Operation (Unit {0}) GetResponse
getting = record (fresh cxn none none 0) {
  request = record { bucket_type = none; bucket = some bucket; key = some bucket; index = none };
}

getting-HasNames : HasNames getting
getting-HasNames = record { bucket = omega arith; bucket_type = tt; key = omega arith }

resp-payload : payload (message 10 (1 ∷ [])) ≡ some (1 ∷ [])
unfolding payload
resp-payload = refl

get_response_decode-fetched_example :
    Returns
      (λ r g. r ≡ fetched_result getting rich-IsRich resp (object ∷ []))
      (get_response_decode unpack_resp getting (some (message 10 (1 ∷ []))) true start)
get_response_decode-fetched_example =
    get_response_decode-fetched unpack_resp getting (message 10 (1 ∷ [])) true start rich-IsRich
      getting-HasNames resp-payload refl refl (row content-Reads no_row)
