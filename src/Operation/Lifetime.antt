-- ===== src/Operation/Lifetime.antt =====
-- The blocks that an operation of src/riak_operation.c owns.
use riak_c_client.Base.{ℕ, ◌+◌, ◌≡◌, true, Option, none, some, is_some, arith}
use riak_c_client.Memory.{Heap}
use riak_c_client.Memory.Returns
use riak_c_client.Memory.Returns.{Returns, returns, Moved, one_if, free_if-Returns}
use riak_c_client.Message
use riak_c_client.Message.{PbMessage}
use riak_c_client.Binary.{Binary}
use riak_c_client.Binary.Print.{HasBytes}
use riak_c_client.Binary.Blocks
use riak_c_client.Operation.{
  Operation, ServerError, Request, get_config, server_error_free, free_request, free, set_key,
}

abbrev owned_message : Option PbMessage → ℕ
owned_message none = 0
owned_message (some pb) = one_if (is_some pb.body) + 1

abbrev owned_error : Option ServerError → ℕ
owned_error none = 0
owned_error (some e) = Blocks.owned e.errmsg + 1

abbrev owned_request : Request → ℕ
owned_request r =
    Blocks.owned r.bucket_type + Blocks.owned r.bucket + Blocks.owned r.key + Blocks.owned r.index

-- The blocks behind the pointers of an operation, and its own.
abbrev pub owned : {D R : Type 0} → Operation D R → ℕ
owned rop =
    owned_message rop.pb_request
    + owned_request rop.request
    + one_if (is_some rop.msgbuf)
    + owned_error rop.error
    + 1

free_request-Returns :
    (pb : Option PbMessage) (h : Heap)
    → Returns (λ _. Moved h 0 (owned_message pb)) (free_request pb h)
unfolding free_request Message.free
free_request-Returns none h = returns (omega arith)
free_request-Returns (some pb) h =
    Returns.bind (free_if-Returns (is_some pb.body) h)
      λ _ g m. Returns.mono (free_if-Returns true g) λ _ k n. omega arith

server_error_free-Returns :
    (e : Option ServerError) (h : Heap)
    → Returns (λ _. Moved h 0 (owned_error e)) (server_error_free e h)
unfolding server_error_free
server_error_free-Returns none h = returns (omega arith)
server_error_free-Returns (some e) h =
    Returns.bind (Blocks.free-Returns e.errmsg h)
      λ _ g m. Returns.mono (free_if-Returns true g) λ _ k n. omega arith

-- riak_operation_free of any operation returns, takes no block, and gives back as many blocks as the
-- operation owns: its request message, the four copies of request data, the message buffer, the
-- server error and the operation itself.
pub free-owned :
    {D R : Type 0} (rop : Operation D R) (h : Heap)
    → Returns (λ _. Moved h 0 (owned rop)) (free rop h)
unfolding free
free-owned rop h = Returns.bind (free_request-Returns rop.pb_request h) λ _ h1 m1.
    Returns.bind (Blocks.free-Returns rop.request.bucket_type h1) λ _ h2 m2.
      Returns.bind (Blocks.free-Returns rop.request.bucket h2) λ _ h3 m3.
        Returns.bind (Blocks.free-Returns rop.request.key h3) λ _ h4 m4.
          Returns.bind (Blocks.free-Returns rop.request.index h4) λ _ h5 m5.
            Returns.bind (free_if-Returns (is_some rop.msgbuf) h5) λ _ h6 m6.
              Returns.bind (server_error_free-Returns rop.error h6)
                λ _ h7 m7. Returns.mono (free_if-Returns true h7) λ _ h8 m8. omega arith

-- riak_operation_set_key of a key whose bytes lie in its block returns, with an operation that owns
-- the blocks that were taken and all it owned before, but for those of the key set before: these
-- stay allocated and are owned by nothing.
pub set_key-lost :
    {D R : Type 0} (rop : Operation D R) {key : Binary}
    → HasBytes key
    → (h : Heap)
    → Returns
        (λ rop' g.
          owned rop' + Blocks.owned rop.request.key + h.mallocs + g.frees
          ≡ owned rop + g.mallocs + h.frees)
        (set_key rop (some key) h)
unfolding set_key
set_key-lost rop {key} has h =
    Returns.bind (Blocks.copy-IsEqualCopy (get_config rop) key h has)
      λ b g p. returns (omega (arith, p.2))
