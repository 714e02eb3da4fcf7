-- ===== src/Messages/Listing/Tests.antt =====
-- A listing of two messages, at a concrete transport and with a concrete unpacker.
use riak_c_client.Base.{
  ℕ, zero, suc, ◌≡◌, refl, Bool, true, false, Option, none, some, List, [], ◌∷◌, arith,
}
use riak_c_client.Error.{eriak_ok}
use riak_c_client.Memory.Returns.{Returns}
use riak_c_client.Operation.{Operation, fresh}
use riak_c_client.ServerError.{payload}
use riak_c_client.Wire.Header.{net_bytes}
use riak_c_client.Wire.Read.{Reading, respond}
use riak_c_client.Wire.Frame
use riak_c_client.Wire.Decode.{message}
use riak_c_client.Wire.Stream.{Arrives}
use riak_c_client.Wire.Stream.Respond.{IsResponded}
use riak_c_client.Wire.Tests.{receive, no_error, rich-IsRich, cxn, start}
use riak_c_client.Libevent.{result_cbs}
use riak_c_client.Messages.Listing.{PbListing, Listing, result, decode}
use riak_c_client.Messages.Listing.Valid.{decode-listed}
use riak_c_client.Messages.Listing.Listed.{listed}
use riak_c_client.Messages.Listing.Streamed
use riak_c_client.Messages.Listing.Streamed.{by_listing, IsPart, Parts, listing-streamed}

-- A message of one key, which is one byte, behind its flag.
abbrev pub page : ℕ → Bool → PbListing
page key done = record {
  items = record { len = 1; data_block = some (key ∷ []) } ∷ [];
  done = record { has = true; content = done };
}

abbrev pub unpack_page : List ℕ → Option PbListing
unpack_page [] = none
unpack_page (zero ∷ []) = none
unpack_page (zero ∷ key ∷ rest) = some (page key false)
unpack_page (suc n ∷ []) = none
unpack_page (suc n ∷ key ∷ rest) = some (page key true)

abbrev pub both : List PbListing
both = page 7 false ∷ page 8 true ∷ []

-- The first message has come.
abbrev halfway : Operation (Unit {0}) Listing
halfway = record (fresh cxn none none 0) { response = listed (page 7 false ∷ []) }

second : payload (message 18 (1 ∷ 8 ∷ [])) ≡ some (1 ∷ 8 ∷ [])
unfolding payload
second = refl

decode-listed_example :
    Returns
      (λ r g. r ≡ result eriak_ok (listed both) true)
      (decode unpack_page halfway (some (message 18 (1 ∷ 8 ∷ []))) true start)
decode-listed_example =
    decode-listed unpack_page halfway {pbs = page 7 false ∷ []} (message 18 (1 ∷ 8 ∷ [])) true start
      rich-IsRich refl second refl (omega arith, tt)
      (record { items = omega arith; messages = omega arith })

-- Both messages in pieces, the end of the input between them.
abbrev pieces : List (List ℕ)
pieces =
    (0 ∷ 0 ∷ 0 ∷ 3 ∷ []) ∷ (18 ∷ 0 ∷ 7 ∷ []) ∷ [] ∷ (0 ∷ 0 ∷ 0 ∷ 3 ∷ []) ∷ (18 ∷ 1 ∷ 8 ∷ []) ∷ []

abbrev waiting : Reading (Unit {0}) Listing (List (List ℕ))
waiting = record {
  rop = record (fresh cxn (some 1) (some 2) 0) { decoder = some tt };
  done = false;
  io = pieces;
  events = [];
}

arrives :
    (flag key : ℕ) (more : List (List ℕ))
    → Arrives receive
        ((0 ∷ 0 ∷ 0 ∷ 3 ∷ []) ∷ (18 ∷ flag ∷ key ∷ []) ∷ more)
        more
        18
        (flag ∷ key ∷ [])
        0
unfolding net_bytes
arrives flag key more = record {
  body_at = (18 ∷ flag ∷ key ∷ []) ∷ more;
  byte = omega arith;
  not_error = λ e. ground (arith, e);
  small = omega arith;
  length_read = refl;
  body_read = Frame.last refl refl;
}

pub first-IsPart : IsPart unpack_page [] (0 ∷ 7 ∷ []) (page 7 false)
first-IsPart = record {
  unpacks = refl;
  whole = (omega arith, tt);
  countable = record { items = omega arith; messages = omega arith };
}

pub second-IsPart : IsPart unpack_page (page 7 false ∷ []) (1 ∷ 8 ∷ []) (page 8 true)
second-IsPart = record {
  unpacks = refl;
  whole = (omega arith, tt);
  countable = record { items = omega arith; messages = omega arith };
}

parts : Parts receive unpack_page both pieces 2 []
parts =
    Streamed.more_parts (arrives 0 7 ([] ∷ (0 ∷ 0 ∷ 0 ∷ 3 ∷ []) ∷ (18 ∷ 1 ∷ 8 ∷ []) ∷ [])) refl
      first-IsPart refl (Streamed.last_part (arrives 1 8 []) second-IsPart refl refl) refl

listing-streamed_example :
    Returns
      (λ s' g.
        IsResponded (respond (record (waiting.rop) { response = listed both })) (listed both) s')
      (result_cbs receive (by_listing unpack_page) no_error 2 2 waiting start)
listing-streamed_example =
    listing-streamed receive unpack_page no_error rich-IsRich tt 0 waiting start
      (record { incomplete = refl; at_start = refl }) refl refl refl parts
