-- ===== src/Messages/Listing.antt =====
-- The streamed responses of src/messages/riak_listkeys.c and src/messages/riak_listbuckets.c, which
-- differ only in the names of their fields: each message of a response adds its items, keys or
-- buckets, to those that the messages before it brought.
--
-- `unpack` stands for the generated unpacker; what it allocates goes by protobuf-c's allocator and is
-- not counted. A cell that has not been written holds NULL here.
pub mod Items
pub mod Listed
pub mod Valid
pub mod Streamed
pub mod Tests
use riak_c_client.Base.{
  ℕ, zero, suc, ◌+◌, Bool, true, false, Option, none, some, List, [], ◌∷◌, ◌++◌, length, replicate,
  write_at, read_at, add32, mul64, ltb, is_some, if◌then◌else◌,
}
use riak_c_client.Error.{RiakError, eriak_ok, eriak_out_of_memory, eriak_message_format}
use riak_c_client.Memory.{Heap, Cmd, fault, pure, value, ◌>>=◌, ◌>>◌, Config, cfg_malloc, free_if}
use riak_c_client.Utils.{array_realloc}
use riak_c_client.Binary
use riak_c_client.Binary.{Binary, PbBinary}
use riak_c_client.Message.{PbMessage}
use riak_c_client.Operation.{Operation, get_config}
use riak_c_client.ServerError.{payload}
use riak_c_client.Object.Types.{Flagged}
use riak_c_client.Wire.Read.{DecodeResult}

-- `RpbListKeysResp` and `RpbListBucketsResp`; `n_items` is the number of the entries.
pub record PbListing : Type 0 where
  pub items : List PbBinary
  pub done : Flagged Bool

-- `_riak_listkeys_response` and `_riak_listbuckets_response`
pub record Listing : Type 0 where
  pub n_items : ℕ
  pub items : Option (List (Option Binary))
  pub done : Bool
  pub n_responses : ℕ
  pub internal : Option (List (Option PbListing))

abbrev pub empty : Listing
empty = record { n_items = 0; items = none; done = false; n_responses = 0; internal = none }

abbrev pub sizeof_listing : ℕ
sizeof_listing = 40

-- A block of `n` pointers.
unfoldable pub new_cells : {A : Type 0} → Config → ℕ → Cmd (Option (List (Option A)))
new_cells cfg n = do
  got ← cfg_malloc cfg (mul64 8 n)
  elim got [ false ↦ pure none | true ↦ pure (some (replicate n none)) ]

-- The block of `existing` pointers grown to `existing + additional`, or the first one.
unfoldable pub grown :
    {A : Type 0} → Config → Option (List (Option A)) → ℕ → ℕ → Cmd (Option (List (Option A)))
grown cfg none existing additional = new_cells cfg additional
grown cfg (some cells) existing additional =
    array_realloc cfg none cells 8 existing (add32 additional existing)

-- The end of the loop that copies the items: all copied, or a copy with no block for its bytes, where
-- the copies made before it are given back.
pub data Copied : Type 0 where
  copied : List (Option Binary) → Copied
  undone : Copied

unfoldable pub free_pointers : ℕ → Cmd (Unit {0})
free_pointers zero = pure tt
free_pointers (suc n) = do free_if true; free_pointers n

-- The loop that copies the items from number `i` on, to the cells behind the `existing` ones. A copy
-- that is NULL is read, which is a fault.
unfoldable pub copy_items : Config → ℕ → ℕ → List PbBinary → List (Option Binary) → Cmd Copied
copy_items cfg existing i [] cells = pure (copied cells)
copy_items cfg existing i (item ∷ items) cells = do
  b ← Binary.new cfg item.len item.data_block
  cells' ← value (write_at cells (i + existing) b)
  bin ← value b
  elim (is_some bin.data_block) [
    | true ↦ copy_items cfg existing (suc i) items cells'
    | false ↦ do free_pointers i; pure undone
  ]

-- `response->done`
abbrev pub done_of : PbListing → Bool
done_of pb = if pb.done.has then pb.done.content else false

-- What the pointer to the response is worth after an error: an old response stays where it is, in
-- its state so far; a new one is lost.
abbrev pub kept : Option Listing → Listing → Option Listing
kept none response = none
kept (some _) response = some response

abbrev pub result : RiakError → Option Listing → Bool → DecodeResult Listing
result err response done = record { result = err; response = response; done = done }

-- The vector of unpacked messages: its growth is by one, and the first one allocates it.
unfoldable pub keep_message :
    Config → Option Listing → Listing → PbListing → Cmd (DecodeResult Listing)
keep_message cfg old response pb =
    let vector = if ltb 0 response.n_responses then response.internal else none in
    do
      cells ← grown cfg vector response.n_responses 1
      elim cells [
        | none ↦ pure (result eriak_out_of_memory (kept old response) response.done)
        | some block ↦ do
          block' ← value (write_at block response.n_responses (some pb))
          pure (
              result eriak_ok
                (some (record response {
                  internal = some block';
                  n_responses = add32 response.n_responses 1;
                }))
                response.done)
      ]

-- What follows the growth of the items.
unfoldable pub add_items :
    Config
    → Option Listing
    → Listing
    → PbListing
    → Bool
    → Option (List (Option Binary))
    → Cmd (DecodeResult Listing)
add_items cfg old response pb done none = pure (result eriak_out_of_memory (kept old response) done)
add_items cfg old response pb done (some cells) = do
  end ← copy_items cfg response.n_items 0 pb.items cells
  elim end [
    | undone ↦ do free_if true; free_if (is_some old); pure (result eriak_out_of_memory none done)
    | copied items ↦
        keep_message cfg old
          (record response {
            n_items = add32 response.n_items (length pb.items);
            items = some items;
            done = done_of pb;
          })
          pb
  ]

-- The decoding of an unpacked message into a response.
unfoldable pub extend :
    Config → Option Listing → Listing → PbListing → Bool → Cmd (DecodeResult Listing)
extend cfg old response pb done = do
  cells ← grown cfg response.items response.n_items (length pb.items)
  add_items cfg old response pb done cells

-- The response so far, or a new one.
unfoldable pub start_or_continue :
    Config → Option Listing → PbListing → Bool → Cmd (DecodeResult Listing)
start_or_continue cfg (some response) pb done = extend cfg (some response) response pb done
start_or_continue cfg none pb done = do
  got ← cfg_malloc cfg sizeof_listing
  elim got [
    | false ↦ pure (result eriak_out_of_memory none done)
    | true ↦ extend cfg none empty pb done
  ]

-- `riak_listkeys_response_decode` and `riak_listbuckets_response_decode`; a NULL message faults.
unfoldable pub decode :
    {D : Type 0}
    → (List ℕ → Option PbListing)
    → Operation D Listing
    → Option PbMessage
    → Bool
    → Cmd (DecodeResult Listing)
decode unpack rop none done = λ h. fault
decode unpack rop (some pbresp) done = do
  bytes ← value (payload pbresp)
  elim (unpack bytes) [
    | none ↦ pure (result eriak_message_format rop.response done)
    | some pb ↦ start_or_continue (get_config rop) rop.response pb done
  ]

-- The loop that frees the items.
unfoldable pub free_items : ℕ → List (Option Binary) → Cmd (Unit {0})
free_items zero cells = pure tt
free_items (suc n) [] = λ h. fault
free_items (suc n) (cell ∷ cells) = do Binary.free cell; free_items n cells

abbrev pub cells_of : {A : Type 0} → Option (List A) → List A
cells_of none = []
cells_of (some cells) = cells

-- `riak_listkeys_response_free` and `riak_listbuckets_response_free`; the unpacked messages go by
-- protobuf-c's allocator.
unfoldable pub free : Option Listing → Cmd (Unit {0})
free none = pure tt
free (some response) = do
  free_items response.n_items (cells_of response.items)
  free_if (is_some response.items)
  elim (ltb 0 response.n_responses) [
    | true ↦ do free_if (is_some response.internal); free_if true
    | false ↦ free_if true
  ]
