-- ===== src/Wire/Write.antt =====
-- riak_write of src/riak.c: sends the request of an operation in three calls of the user's write
-- callback.
--
-- Parameters: `S` is the state of the transport; `write_cb` takes the bytes and answers with what
-- the callback returned, as the bit pattern of its `riak_int32_t`. The dump of the message for
-- debugging is left out.
use riak_c_client.Base.{
  ℕ, ◌%◌, true, false, Option, none, some, List, [], ◌∷◌, ltb, ◌==◌, read_run, u32_mod, add64,
  if◌then◌else◌,
}
use riak_c_client.Error.{RiakError, eriak_ok, eriak_write}
use riak_c_client.Binary.{cells}
use riak_c_client.Message.{PbMessage}
use riak_c_client.Wire.Header.{host_bytes, htonl}

module _ {S : Type 0} (write_cb : S → List ℕ → ℕ × S) where
  -- One call, and what follows unless it wrote 0 bytes.
  abbrev pub sent : S → List ℕ → (S → Option (RiakError × S)) → Option (RiakError × S)
  sent io bytes next =
      let (wrote, io') = write_cb io bytes in
      let rest = next io' in if wrote == 0 then some (eriak_write, io') else rest

  -- The message's data, unless it is empty; `none` is a read outside its block.
  unfoldable pub send_data : PbMessage → S → Option (RiakError × S)
  send_data msg io = elim (ltb 0 msg.len) [
    | false ↦ some (eriak_ok, io)
    | true ↦ elim (read_run (cells msg.body) msg.len) [
      | none ↦ none
      | some bytes ↦ sent io bytes (λ io'. some (eriak_ok, io'))
    ]
  ]

  -- `riak_write` of the operation's request; `none` for an operation without one, whose NULL
  -- pointer is read.
  unfoldable pub write : Option PbMessage → S → Option (RiakError × S)
  write none io = none
  write (some msg) io =
      sent io (host_bytes (htonl (add64 msg.len 1 % u32_mod)))
        (λ io'. sent io' (msg.msgid ∷ []) (send_data msg))
