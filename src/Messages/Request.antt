-- ===== src/Messages/Request.antt =====
-- The steps that the encoders of src/messages share: the packed request goes into a block, the block
-- into a message, and the message and the decoder of the response into the operation.
--
-- `bytes` stands for what the generated packer writes; its packed size is their number.
use riak_c_client.Base.{ℕ, Bool, true, false, Option, none, some, List, length, ltb, if◌then◌else◌}
use riak_c_client.Error.{RiakError, eriak_ok, eriak_out_of_memory}
use riak_c_client.Memory.{Cmd, pure, ◌>>=◌, ◌>>◌, Config, cfg_malloc, free_if}
use riak_c_client.Binary.{Binary, PbBinary, copy_to_pb}
use riak_c_client.Message
use riak_c_client.Message.{PbMessage}
use riak_c_client.Operation.{Operation, get_config}
use riak_c_client.Object.Types.{Flagged}
use riak_c_client.Object.Pairs.{unset_pb}

-- `if (x != NULL) { copy_to_pb(&req.x, x); req.has_x = RIAK_TRUE; }`
abbrev pub optional_to_pb : Option Binary → Flagged PbBinary
optional_to_pb none = unset_pb
optional_to_pb (some b) = record { has = true; content = copy_to_pb b }

-- `if (n > 0) { req.has_n = RIAK_TRUE; req.n = n; }`
abbrev pub if_positive : ℕ → Flagged ℕ
if_positive n =
    if ltb 0 n then record { has = true; content = n } else record { has = false; content = 0 }

-- The message of a request. `no_buffer` is what is returned without a block for the bytes, and `gives_back`
-- says whether that block is freed without memory for the message.
unfoldable pub packed : RiakError → Bool → Config → ℕ → List ℕ → Cmd (RiakError × Option PbMessage)
packed no_buffer gives_back cfg msgid bytes = do
  msgbuf ← cfg_malloc cfg (length bytes)
  elim msgbuf [
    | false ↦ pure (no_buffer, none)
    | true ↦ do
      request ← Message.new cfg msgid (length bytes) (some bytes)
      elim request [
        | none ↦ do free_if gives_back; pure (eriak_out_of_memory, none)
        | some pb ↦ pure (eriak_ok, some pb)
      ]
  ]

module _ {D R : Type 0} where
  -- `*req = request; riak_operation_set_response_decoder(rop, decoder);`
  abbrev pub installed :
      Operation D R → D → RiakError × Option PbMessage → RiakError × Operation D R
  installed rop decoder (err, none) = (err, rop)
  installed rop decoder (err, some pb) =
      (err, record rop { pb_request = some pb; decoder = some decoder })

  -- An encoder's end.
  unfoldable pub encode_packed :
      RiakError → Bool → Operation D R → D → ℕ → List ℕ → Cmd (RiakError × Operation D R)
  encode_packed no_buffer gives_back rop decoder msgid bytes = do
    r ← packed no_buffer gives_back (get_config rop) msgid bytes
    pure (installed rop decoder r)

  -- An encoder of a request without data.
  unfoldable pub encode_empty : Operation D R → D → ℕ → Cmd (RiakError × Operation D R)
  encode_empty rop decoder msgid = do
    request ← Message.new (get_config rop) msgid 0 none
    elim request [
      | none ↦ pure (eriak_out_of_memory, rop)
      | some pb ↦ pure (eriak_ok, record rop { pb_request = some pb; decoder = some decoder })
    ]

-- A field that the generated initialiser leaves without its flag.
abbrev pub unset_number : Flagged ℕ
unset_number = record { has = false; content = 0 }

abbrev pub unset_flag : Flagged Bool
unset_flag = record { has = false; content = false }

-- `opt->has_x = RIAK_TRUE; opt->x = value;`
abbrev pub set_to : {A : Type 0} → A → Flagged A
set_to v = record { has = true; content = v }
