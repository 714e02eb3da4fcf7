-- ===== src/Sync/Packed.antt =====
-- A synchronous call of src/riak.c whose request has been packed by the encoders' shared end.
use mathlib.Core.Path.{subst}
use riak_c_client.Base.{
  ℕ, suc, ◌+◌, ◌%◌, ◌^◌, ◌<◌, ◌≡◌, refl, sym, Bool, true, Option, none, some, List, ◌++◌, arith,
  length, take-length, u32_mod, u8_mod,
}
use riak_c_client.Error.{RiakError, eriak_ok}
use riak_c_client.Memory.{Heap, Cmd, Config}
use riak_c_client.Memory.Returns.{Returns, returns}
use riak_c_client.Memory.Rich.{IsRich, bind_known, cfg_malloc-Grants, config_clean_allocate-Grants}
use riak_c_client.Connection.{Connection}
use riak_c_client.Message
use riak_c_client.Message.{PbMessage, sizeof_pb_message}
use riak_c_client.Operation.{Operation}
use riak_c_client.ServerError.{PbErrorResp}
use riak_c_client.Wire.Read.{Reply, Decode}
use riak_c_client.Wire.Send.{frame, CanSend, IsSink}
use riak_c_client.Wire.Decode.{message}
use riak_c_client.Wire.Stream.{Answers}
use riak_c_client.Messages.Request.{packed, encode_packed}
use riak_c_client.Sync.{call}
use riak_c_client.Sync.Call.{Encodes, Replies, IsAnswered, call-IsAnswered}

-- The message with the code `id` and these data.
abbrev pub request : ℕ → List ℕ → PbMessage
request id bytes = record { len = length bytes; msgid = id; body = some bytes }

module _ {cfg : Config} (rich : IsRich cfg) (id : ℕ) (byte : id < 256) (bytes : List ℕ)
    (small : length bytes + 1 < 2 ^ 32) where
  pub new-request :
      (h : Heap)
      → Returns
          (λ r g. r ≡ some (request id bytes))
          (Message.new cfg id (length bytes) (some bytes) h)
  unfolding Message.new
  new-request h =
      let fits : length bytes % u32_mod ≡ length bytes = omega arith in
      let fits_id : id % u8_mod ≡ id = omega arith in
      bind_known _ (config_clean_allocate-Grants rich sizeof_pb_message h)
        λ g. rw (fits, fits_id) (returns refl)

  packed-Rich :
      (no_buffer : RiakError) (gives_back : Bool) (h : Heap)
      → Returns
          (λ r g. r ≡ (eriak_ok, some (request id bytes)))
          (packed no_buffer gives_back cfg id bytes h)
  unfolding packed
  packed-Rich no_buffer gives_back h =
      bind_known _ (cfg_malloc-Grants rich (length bytes) h)
        λ g. bind_known _ (new-request g) λ k. returns refl

-- An encoder's end on a new operation.
pub encode_packed-Encodes :
    {D R : Type 0} {cxn : Connection} (rich : IsRich cxn.config) (decoder : D) (id : ℕ)
    (byte : id < 256) (bytes : List ℕ) (small : length bytes + 1 < 2 ^ 32) (no_buffer : RiakError)
    (gives_back : Bool)
    → Encodes {R = R} cxn
        (request id bytes)
        decoder
        (λ rop. encode_packed no_buffer gives_back rop decoder id bytes)
unfolding encode_packed
encode_packed-Encodes rich decoder id byte bytes small no_buffer gives_back h =
    bind_known _ (packed-Rich rich id byte bytes small no_buffer gives_back h) λ g. returns (
      refl,
      record {
        on = refl;
        sends = refl;
        decodes = refl;
        silent = refl;
        new = refl;
        incomplete = refl;
        at_start = refl;
      },
    )

pub request-CanSend :
    (id : ℕ) (bytes : List ℕ) → length bytes + 1 < 2 ^ 32 → CanSend (request id bytes)
request-CanSend id bytes small = record { within = omega arith; small = small }

module _ {D R S : Type 0} (read_cb : S → ℕ → Reply × S) (write_cb : S → List ℕ → ℕ × S)
    (decode : Decode D R) (unpack_error : List ℕ → Option PbErrorResp) (fuel self : ℕ)
    {cxn : Connection} (rich : IsRich cxn.config) {taken : S → List ℕ}
    (sink : IsSink write_cb taken) (io : S) (h : Heap) {request_id : ℕ} {bytes : List ℕ}
    (small : length bytes + 1 < 2 ^ 32) {decoder : D} {id : ℕ} {rest : List ℕ} {final : Option R}
    (replies : Replies read_cb taken (taken io ++ frame request_id bytes) id rest)
    (answers : Answers read_cb decode unpack_error cxn.config decoder none
      (message id rest)
      final
      true)
    (encode : Operation D R → Cmd (RiakError × Operation D R))
    (encodes : Encodes cxn (request request_id bytes) decoder encode) where
  -- The call of which this is the request.
  pub call-packed :
      Returns
        (λ r g. IsAnswered final r)
        (call read_cb write_cb decode unpack_error (suc fuel) self cxn encode io none h)
  call-packed =
      call-IsAnswered read_cb write_cb decode unpack_error fuel self rich sink
        (request-CanSend request_id bytes small) io encode encodes h
        (subst (λ xs. Replies read_cb taken (taken io ++ frame request_id xs) id rest)
          (sym (take-length bytes)) replies)
        answers
