-- ===== src/Wire/Stream/Tests.antt =====
-- A response of one message in two read events, at a concrete transport.
use riak_c_client.Base.{refl, none, some, [], ◌∷◌, arith}
use riak_c_client.Memory.Returns.{Returns, returns}
use riak_c_client.Wire.Read.{respond}
use riak_c_client.Wire.Decode.{message}
use riak_c_client.Wire.Stream.{Arrives}
use riak_c_client.Wire.Stream.Respond
use riak_c_client.Wire.Stream.Respond.{Stream, IsResponded, Stream-IsResponded}
use riak_c_client.Wire.Tests.{
  receive, echo, no_error, rich, waiting, pieces, after_length, start, header, in_two,
  waiting-IsIdle, rich-IsRich,
}
use riak_c_client.Libevent.{result_cbs}

first : Arrives receive pieces [] 2 (7 ∷ 8 ∷ []) 1
first = record {
  body_at = after_length;
  byte = omega arith;
  not_error = λ e. ground (arith, e);
  small = omega arith;
  length_read = header;
  body_read = in_two;
}

one_message : Stream receive echo no_error rich tt (some (message 2 (7 ∷ 8 ∷ []))) pieces 2 none
one_message = Respond.last first λ rop so_far same h. returns refl

Stream-IsResponded_example :
    Returns
      (λ s' g.
        IsResponded
          (respond (record ((waiting pieces).rop) { response = some (message 2 (7 ∷ 8 ∷ [])) }))
          (some (message 2 (7 ∷ 8 ∷ [])))
          s')
      (result_cbs receive echo no_error 2 2 (waiting pieces) start)
Stream-IsResponded_example =
    Stream-IsResponded receive echo no_error 0 (waiting pieces) start waiting-IsIdle refl
      rich-IsRich one_message
