-- ===== src/Sync/Tests.antt =====
-- Synchronous calls at a concrete server.
use mathlib.Core.Path.{subst}
use riak_c_client.Base.{
  ℕ, ◌+◌, ◌-◌, ◌<◌, ◌^◌, ◌≡◌, refl, sym, true, Option, none, some, List, [], ◌∷◌, ◌++◌, arith,
  length, get_elem?,
}
use riak_c_client.Memory.Returns.{Returns}
use riak_c_client.Binary.{Binary, copy_to_pb, cells}
use riak_c_client.Message.{msg_rpbpingreq}
use riak_c_client.Wire.Header.{net_bytes}
use riak_c_client.Wire.Read.{Reply, got}
use riak_c_client.Wire.Send.{frame}
use riak_c_client.Wire.Tests.{no_error, rich-IsRich, cxn, start, keep, keep-IsSink}
use riak_c_client.Messages.ResetBucket.{PbResetBucketReq}
use riak_c_client.Messages.Acknowledgement.{acknowledged}
use riak_c_client.Messages.ListKeys.{PbListKeysReq}
use riak_c_client.Messages.Ping.{ping_request_encode}
use riak_c_client.Messages.Listing.Listed.{listed}
use riak_c_client.Messages.Listing.Streamed.{by_listing}
use riak_c_client.Messages.Listing.Tests.{unpack_page, both, first-IsPart, second-IsPart}
use riak_c_client.Sync.{call}
use riak_c_client.Sync.Answer.{ArrivesWhole}
use riak_c_client.Sync.Call.{Replies, Silence, IsAnswered, call-IsAnswered, call-silent}
use riak_c_client.Sync.Ping.{by_ping, ping_request, ping_request-Encodes, ping-Answers}
use riak_c_client.Sync.ListKeys
use riak_c_client.Sync.ListKeys.{Pages, keys_request, listkeys-IsAnswered}
use riak_c_client.Sync.Answered.{by_reset, swapped, reset_bucketprops-IsAnswered}
use riak_c_client.Sync.Calls.{listkeys, reset_bucketprops}

-- The socket is the list of what was written to it, with one more entry for each read since then. A
-- request of `n` bytes is answered by the chunks, one to a read, and then by the end of the input.
abbrev pub piece_or_end : Option (List ℕ) → Reply
piece_or_end none = got []
piece_or_end (some bytes) = got bytes

abbrev pub talk : ℕ → List (List ℕ) → List ℕ → ℕ → Reply × List ℕ
talk n chunks io size = (piece_or_end (get_elem? chunks (length io - n)), io ++ (0 ∷ []))

abbrev pub twice : List ℕ → List ℕ
twice io = (io ++ (0 ∷ [])) ++ (0 ∷ [])

-- A server that answers a ping, and one that does not.
abbrev ponging : List ℕ → ℕ → Reply × List ℕ
ponging = talk 5 ((0 ∷ 0 ∷ 0 ∷ 1 ∷ []) ∷ (2 ∷ []) ∷ [])

ponging-Replies : Replies ponging (λ io. io) ([] ++ frame msg_rpbpingreq []) 2 []
unfolding net_bytes
ponging-Replies = record {
  afterwards = twice;
  arrives = λ io e.
      subst (λ x. ArrivesWhole ponging x (twice x) 2 []) (sym e)
        (record {
          body_at = (0 ∷ 0 ∷ 0 ∷ 1 ∷ 1 ∷ []) ++ (0 ∷ []);
          byte = omega arith;
          not_error = λ n. ground (arith, n);
          small = omega arith;
          length_read = refl;
          body_read = refl;
        });
}

closing-Silence : Silence (talk 5 []) (λ io. io) ([] ++ frame msg_rpbpingreq [])
unfolding net_bytes
closing-Silence io e =
    (io ++ (0 ∷ []), subst (λ x. talk 5 [] x 4 ≡ (got [], x ++ (0 ∷ []))) (sym e) refl)

call-IsAnswered_example :
    Returns
      (λ r g. IsAnswered (some (record { success = true })) r)
      (call ponging keep by_ping no_error 1 9 cxn (ping_request_encode tt) [] none start)
call-IsAnswered_example =
    call-IsAnswered ponging keep by_ping no_error 0 9 rich-IsRich keep-IsSink {msg = ping_request}
      (record { within = omega arith; small = omega arith }) [] (ping_request_encode tt)
      (ping_request-Encodes rich-IsRich) start ponging-Replies
      (ping-Answers ponging keep no_error 0 9 cxn rich-IsRich 2 [])

call-silent_example :
    Returns
      (λ r g. IsAnswered none r)
      (call (talk 5 []) keep by_ping no_error 1 9 cxn (ping_request_encode tt) [] none start)
call-silent_example =
    call-silent (talk 5 []) keep by_ping no_error 0 9 rich-IsRich keep-IsSink {msg = ping_request}
      (record { within = omega arith; small = omega arith }) [] (ping_request_encode tt)
      (ping_request-Encodes rich-IsRich) start closing-Silence

-- Packers that write the request's bucket only.
abbrev pack_reset : PbResetBucketReq → List ℕ
pack_reset req = cells req.bucket.data_block

abbrev pack_keys : PbListKeysReq → List ℕ
pack_keys req = cells req.bucket.data_block

abbrev a_type : Binary
a_type = record { len = 1; data_block = some (5 ∷ []); managed = true }

abbrev resetting : List ℕ → ℕ → Reply × List ℕ
resetting = talk 6 ((0 ∷ 0 ∷ 0 ∷ 1 ∷ []) ∷ (22 ∷ []) ∷ [])

resetting-Replies :
    Replies resetting (λ io. io) ([] ++ frame 21 (pack_reset (swapped a_type none))) 22 []
unfolding net_bytes copy_to_pb
resetting-Replies = record {
  afterwards = twice;
  arrives = λ io e.
      subst (λ x. ArrivesWhole resetting x (twice x) 22 []) (sym e)
        (record {
          body_at = (0 ∷ 0 ∷ 0 ∷ 2 ∷ 21 ∷ 5 ∷ []) ++ (0 ∷ []);
          byte = omega arith;
          not_error = λ n. ground (arith, n);
          small = omega arith;
          length_read = refl;
          body_read = refl;
        });
}

small_reset : length (pack_reset (swapped a_type none)) + 1 < 2 ^ 32
unfolding copy_to_pb
small_reset = omega arith

reset_bucketprops-IsAnswered_example :
    Returns
      (λ r g. IsAnswered (some acknowledged) r)
      (reset_bucketprops resetting keep by_reset no_error 1 9 tt cxn [] none pack_reset
        (some a_type)
        none
        start)
reset_bucketprops-IsAnswered_example =
    reset_bucketprops-IsAnswered resetting keep no_error 0 9 cxn rich-IsRich keep-IsSink [] start
      pack_reset a_type none small_reset resetting-Replies

-- A server that answers with a listing of two messages.
abbrev listing : List ℕ → ℕ → Reply × List ℕ
listing =
    talk 6
      ((0 ∷ 0 ∷ 0 ∷ 3 ∷ []) ∷ (18 ∷ 0 ∷ 7 ∷ []) ∷ (0 ∷ 0 ∷ 0 ∷ 3 ∷ []) ∷ (18 ∷ 1 ∷ 8 ∷ []) ∷ [])

abbrev asked : List ℕ
asked = 0 ∷ 0 ∷ 0 ∷ 2 ∷ 17 ∷ 5 ∷ []

first_page : ArrivesWhole listing asked (twice asked) 18 (0 ∷ 7 ∷ [])
unfolding net_bytes
first_page = record {
  body_at = asked ++ (0 ∷ []);
  byte = omega arith;
  not_error = λ n. ground (arith, n);
  small = omega arith;
  length_read = refl;
  body_read = refl;
}

second_page : ArrivesWhole listing (twice asked) (twice (twice asked)) 18 (1 ∷ 8 ∷ [])
unfolding net_bytes
second_page = record {
  body_at = twice asked ++ (0 ∷ []);
  byte = omega arith;
  not_error = λ n. ground (arith, n);
  small = omega arith;
  length_read = refl;
  body_read = refl;
}

pages : Pages listing unpack_page both asked 2 []
pages =
    ListKeys.more_pages first_page first-IsPart refl
      (ListKeys.last_page second_page second-IsPart refl refl)

Pages-after :
    (io : List ℕ)
    → io ≡ [] ++ frame 17 (pack_keys (keys_request none a_type 0))
    → Pages listing unpack_page both io 2 []
unfolding net_bytes copy_to_pb
Pages-after io e = subst (λ x. Pages listing unpack_page both x 2 []) (sym e) pages

small_keys : length (pack_keys (keys_request none a_type 0)) + 1 < 2 ^ 32
unfolding copy_to_pb
small_keys = omega arith

listkeys-IsAnswered_example :
    Returns
      (λ r g. IsAnswered (listed both) r)
      (listkeys listing keep
        (by_listing {D = Unit {0}} unpack_page)
        no_error
        2
        9
        tt
        cxn
        []
        none
        pack_keys
        none
        (some a_type)
        0
        start)
listkeys-IsAnswered_example =
    listkeys-IsAnswered listing keep unpack_page no_error 2 9 cxn rich-IsRich keep-IsSink [] start
      pack_keys none a_type 0 small_keys Pages-after
