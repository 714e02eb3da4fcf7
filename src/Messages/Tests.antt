-- ===== src/Messages/Tests.antt =====
-- The requests and responses of src/messages at concrete inputs.
use riak_c_client.Base.{
  if◌then◌else◌, ◌==◌, ℕ, ◌≡◌, refl, true, false, Option, none, some, List, [], ◌∷◌, arith,
}
use riak_c_client.Error.{eriak_ok}
use riak_c_client.Memory.Returns.{Returns}
use riak_c_client.Binary.{Binary, PbBinary}
use riak_c_client.Binary.Print.{HasBytes}
use riak_c_client.Operation.{Operation, fresh}
use riak_c_client.ServerError.{payload}
use riak_c_client.Object.Pairs.{unset_pb}
use riak_c_client.Wire.Decode.{message}
use riak_c_client.Wire.Tests.{rich-IsRich, cxn, start}
use riak_c_client.Messages.Request.{set_to}
use riak_c_client.Messages.Put.{PutOptions, no_content, plain_put, with_put_options}
use riak_c_client.Messages.Put.Options.{no_put_options}
use riak_c_client.Messages.Put
use riak_c_client.Messages.Put.Sent.{with_put_options-IsSent}
use riak_c_client.Messages.Delete.{DeleteOptions}
use riak_c_client.Messages.Delete.Options.{no_delete_options}
use riak_c_client.Messages.MapReduce.{PbMapRedResp, MapReduceResponse, reduced}
use riak_c_client.Messages.MapReduce.Gathered.{whole}
use riak_c_client.Messages.MapReduce.Whole.{
  comes, ends_with, goes_on, decode_each, mapreduce_response_decode-whole,
}

abbrev bin : Binary
bin = record { len = 2; data_block = some (4 ∷ 5 ∷ []); managed = true }

bin-HasBytes : HasBytes bin
bin-HasBytes = record { within = omega arith }

-- A put only of a new key, with a vector clock.
abbrev put_opts : PutOptions
put_opts = record no_put_options { if_none_match = set_to true; vclock = set_to (some bin) }

abbrev delete_opts : DeleteOptions
delete_opts = record no_delete_options { w = set_to 2; vclock = set_to (some bin) }

abbrev pb_bin : PbBinary
pb_bin = record { len = 1; data_block = some (9 ∷ []) }

with_put_options-IsSent_example :
    Returns
      (λ putmsg g. Put.Sent.IsSent put_opts putmsg)
      (with_put_options (some put_opts) (plain_put unset_pb pb_bin unset_pb no_content) start)
with_put_options-IsSent_example =
    with_put_options-IsSent put_opts unset_pb pb_bin unset_pb no_content start λ on. (bin, refl)

-- A map/reduce message that is not the last.
abbrev part : PbMapRedResp
part = record {
  phase = set_to 0;
  response = set_to pb_bin;
  done = record { has = false; content = false };
}

abbrev unpack_part : List ℕ → Option PbMapRedResp
unpack_part bytes = some part

abbrev waiting : Operation (Unit {0}) MapReduceResponse
waiting = fresh cxn none none 0

part-payload : payload (message 24 (1 ∷ [])) ≡ some (1 ∷ [])
unfolding payload
part-payload = refl

-- The last message, and an unpacker that tells the two by their first byte.
abbrev last_part : PbMapRedResp
last_part = record part { phase = set_to 1; done = set_to true }

abbrev unpack_either : List ℕ → Option PbMapRedResp
unpack_either [] = none
unpack_either (b ∷ bytes) = if b == 1 then some part else some last_part

last-payload : payload (message 24 (2 ∷ [])) ≡ some (2 ∷ [])
unfolding payload
last-payload = refl

mapreduce_response_decode-whole_example :
    Returns
      (λ r g. r ≡ reduced eriak_ok (some (whole (part ∷ last_part ∷ []))) true)
      (decode_each unpack_either waiting (message 24 (1 ∷ []) ∷ message 24 (2 ∷ []) ∷ []) start)
mapreduce_response_decode-whole_example =
    mapreduce_response_decode-whole unpack_either waiting start rich-IsRich refl refl (omega arith)
      (goes_on (comes part-payload refl) refl (ends_with (comes last-payload refl) refl))
