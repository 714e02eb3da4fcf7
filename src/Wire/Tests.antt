-- ===== src/Wire/Tests.antt =====
-- Runs of riak_read and riak_write of src/riak.c, and the theorems at a concrete transport.
use riak_c_client.Base.{
  ℕ, ◌≡◌, refl, true, false, Option, none, some, List, [], ◌∷◌, ◌++◌, arith, length, take, drop,
  ltb, if◌then◌else◌,
}
use riak_c_client.Error.{eriak_ok}
use riak_c_client.Memory.{
  Heap, Config, ok, pure, config_allocate, config_clean_allocate, call_malloc,
}
use riak_c_client.Memory.Rich.{IsRich}
use riak_c_client.Connection.{Connection}
use riak_c_client.Message.{PbMessage, sizeof_pb_message}
use riak_c_client.Operation.{fresh}
use riak_c_client.ServerError.{PbErrorResp}
use riak_c_client.Wire.Header.{net_bytes}
use riak_c_client.Wire.Read.{Reply, got, broken, Reading, Decode, deliver_decoded}
use riak_c_client.Wire.Write.{write}
use riak_c_client.Wire.Frame.{Cut, last, more, settle}
use riak_c_client.Wire.Message.{IsIdle}
use riak_c_client.Wire.Decode.{message, at_decoder, message-decoded}
use riak_c_client.Wire.Send.{frame, CanSend, IsSink, write-frame}
use riak_c_client.Libevent.{result_cbs}

-- A transport that holds the pieces in which the bytes arrive; -1 when there is none.
abbrev pub receive : List (List ℕ) → ℕ → Reply × List (List ℕ)
receive [] n = (broken, [])
receive (piece ∷ pieces) n =
    if ltb n (length piece)
    then (got (take n piece), drop n piece ∷ pieces)
    else (got piece, pieces)

-- A transport that keeps all that it is given.
abbrev pub keep : List ℕ → List ℕ → ℕ × List ℕ
keep io bytes = (length bytes, io ++ bytes)

-- A decoder that answers with the message and ends the response.
abbrev pub echo : Decode (Unit {0}) PbMessage
echo decoder rop pb done = pure (record { result = eriak_ok; response = pb; done = true })

abbrev pub no_error : List ℕ → Option PbErrorResp
no_error bytes = none

abbrev pub rich : Config
rich = record { malloc_fn = some (λ n bytes. true) }

-- The allocator of the tests always has memory.
pub rich-IsRich : IsRich rich
rich-IsRich = record { alloc = λ n bytes. true; is_set = refl; always = λ n bytes. refl }

abbrev pub cxn : Connection
cxn = record { config = rich; hostname = []; portnum = []; has_addrinfo = true; fd = 3 }

abbrev pub start : Heap
start = record { calls = 0; mallocs = 0; frees = 0 }

-- An operation that waits for the answer to a ping, and the three bytes of two messages in pieces.
abbrev pub waiting : List (List ℕ) → Reading (Unit {0}) PbMessage (List (List ℕ))
waiting pieces = record {
  rop = record (fresh cxn (some 1) (some 2) 0) { decoder = some tt };
  done = false;
  io = pieces;
  events = [];
}

abbrev pub pieces : List (List ℕ)
pieces = (0 ∷ 0 ∷ 0 ∷ 3 ∷ []) ∷ (2 ∷ []) ∷ (7 ∷ 8 ∷ []) ∷ []

abbrev pub after_length : List (List ℕ)
after_length = (2 ∷ []) ∷ (7 ∷ 8 ∷ []) ∷ []

-- The memory after one allocation and after two.
abbrev once : Heap
once = record { calls = 1; mallocs = 1; frees = 0 }

abbrev twice : Heap
twice = record { calls = 2; mallocs = 2; frees = 0 }

pub waiting-IsIdle : IsIdle (waiting pieces)
waiting-IsIdle = record { incomplete = refl; at_start = refl }

pub in_two : Cut receive [] after_length 3 1 (2 ∷ 7 ∷ 8 ∷ [])
in_two = more {bytes = 2 ∷ []} {rest = 7 ∷ 8 ∷ []} refl refl (omega arith) refl (last refl refl)

pub header : receive pieces 4 ≡ (got (net_bytes 3), after_length)
unfolding net_bytes
header = refl

buffer_room : config_allocate (some rich) 3 start ≡ ok true once
unfolding config_allocate call_malloc
buffer_room = refl

record_room : config_clean_allocate (some rich) sizeof_pb_message once ≡ ok true twice
unfolding config_clean_allocate call_malloc
record_room = refl

message-decoded_example :
    result_cbs receive echo no_error 1 2 (waiting pieces) start
    ≡ settle receive echo no_error 0 (
        deliver_decoded receive echo no_error
          (at_decoder (waiting pieces) 2 (7 ∷ 8 ∷ []) after_length [])
          tt
          (some (message 2 (7 ∷ 8 ∷ [])))
          twice)
message-decoded_example =
    message-decoded receive echo no_error 0 (waiting pieces) 2 (7 ∷ 8 ∷ []) start once twice
      waiting-IsIdle refl (omega arith) (λ e. ground (arith, e)) (omega arith) header in_two
      buffer_room record_room

-- A put request of two bytes.
abbrev request : PbMessage
request = record { len = 2; msgid = 11; body = some (5 ∷ 6 ∷ []) }

pub keep-IsSink : IsSink keep (λ io. io)
keep-IsSink = record { counts = λ io bytes. refl; takes = λ io bytes. refl }

request-CanSend : CanSend request
request-CanSend = record { within = omega arith; small = omega arith }

write-frame_example :
    (io' : List ℕ) × (write keep (some request) [] ≡ some (eriak_ok, io'))
    × (io' ≡ frame 11 (5 ∷ 6 ∷ []))
write-frame_example = write-frame keep keep-IsSink request request-CanSend []
