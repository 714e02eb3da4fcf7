-- ===== src/Wire/Send.antt =====
-- What riak_write of src/riak.c puts on the transport.
use riak_c_client.Base.{
  ℕ, suc, ◌+◌, ◌%◌, ◌^◌, ◌≤◌, ◌<◌, ◌≡◌, ◌≢◌, sym, ap, ◌∙◌, false, Option, some, List, [], ◌∷◌, ◌++◌,
  arith, length, take, ltb, add64, u32_mod, append_assoc, append-nil, length-take, Bool-cases, inl,
  inr,
}
use riak_c_client.Error.{RiakError, eriak_ok, eriak_write}
use riak_c_client.Binary.{cells}
use riak_c_client.Message.{PbMessage}
use riak_c_client.Wire.Header.{net_bytes, host_bytes, htonl, host_bytes-htonl, length-net_bytes}
use riak_c_client.Wire.Write.{write, send_data, sent}

-- A message as it goes over the wire.
abbrev pub frame : ℕ → List ℕ → List ℕ
frame id payload = net_bytes (suc (length payload)) ++ (id ∷ payload)

-- The data of a message lies in its block, and its length with the code fits the header.
pub record CanSend (msg : PbMessage) : Type 0 where
  pub within : msg.len ≤ length (cells msg.body)
  pub small : msg.len + 1 < 2 ^ 32

-- A transport that takes all that it is given; `taken` is what it has taken so far.
pub record IsSink {S : Type 0} (write_cb : S → List ℕ → ℕ × S) (taken : S → List ℕ) : Type 0 where
  pub counts : (io : S) (bytes : List ℕ) → (write_cb io bytes).0 ≡ length bytes
  pub takes : (io : S) (bytes : List ℕ) → taken (write_cb io bytes).1 ≡ taken io ++ bytes

module _ {S : Type 0} (write_cb : S → List ℕ → ℕ × S) where
  sent-on :
      (io : S) (bytes : List ℕ) (next : S → Option (RiakError × S))
      → (write_cb io bytes).0 ≢ 0
      → sent write_cb io bytes next ≡ next (write_cb io bytes).1
  sent-on io bytes next h = ground arith

  sent-stop :
      (io : S) (bytes : List ℕ) (next : S → Option (RiakError × S))
      → (write_cb io bytes).0 ≡ 0
      → sent write_cb io bytes next ≡ some (eriak_write, (write_cb io bytes).1)
  sent-stop io bytes next h = ground arith

  -- The data goes out behind what the transport has taken.
  send_data-taken :
      {taken : S → List ℕ}
      → IsSink write_cb taken
      → (msg : PbMessage) → msg.len ≤ length (cells msg.body)
      → (io : S)
      → (io' : S) × (send_data write_cb msg io ≡ some (eriak_ok, io'))
        × (taken io' ≡ taken io ++ take msg.len (cells msg.body))
  unfolding send_data
  send_data-taken {taken} sink msg within io = elim (Bool-cases (ltb 0 msg.len)) [
    | inl some_data ↦
        let payload = take msg.len (cells msg.body) in
        let counted : length payload ≡ msg.len =
          omega (arith, length-take msg.len (cells msg.body)) in
        let all : ltb (length (cells msg.body)) msg.len ≡ false = ground arith in
        (
          (write_cb io payload).1,
          (rw (some_data, all, send_data))
              ∙ sent-on io payload (λ io'. some (eriak_ok, io'))
                  (λ e. ground (arith, e, counted, sink.counts io payload)),
          sink.takes io payload,
        )
    | inr empty ↦ (
      io,
      rw (empty, send_data),
      (let zero_len : msg.len ≡ 0 = ground arith in
          sym (ap (λ n. taken io ++ take n (cells msg.body)) zero_len ∙ append-nil (taken io))),
    )
  ]

joined :
    (before : List ℕ) (id n : ℕ) (payload : List ℕ)
    → length payload ≡ n
    → ((before ++ net_bytes (suc n)) ++ (id ∷ [])) ++ payload ≡ before ++ frame id payload
unfolding net_bytes
joined before id n payload e =
    ap (λ xs. xs ++ payload) (append_assoc before (net_bytes (suc n)) (id ∷ []))
    ∙ append_assoc before (net_bytes (suc n) ++ (id ∷ [])) payload
    ∙ rw (sym e)

sum_small : (n : ℕ) → n + 1 < 2 ^ 32 → add64 n 1 % u32_mod ≡ suc n
sum_small n h = omega arith

-- For a message whose data lies in its block and whose length with the code fits 32 bits, riak_write
-- on a transport that takes all it is given reports success, and the transport has taken, after what it had before, the length of code and data in
-- four bytes, most significant first, the code, and the data.
pub write-frame :
    {S : Type 0} (write_cb : S → List ℕ → ℕ × S) {taken : S → List ℕ}
    → IsSink write_cb taken
    → (msg : PbMessage) → CanSend msg
    → (io : S)
    → (io' : S) × (write write_cb (some msg) io ≡ some (eriak_ok, io'))
      × (taken io' ≡ taken io ++ frame msg.msgid (take msg.len (cells msg.body)))
unfolding write
write-frame write_cb {taken} sink msg can io =
    let within = can.within in
    let payload = take msg.len (cells msg.body) in
    let header : host_bytes (htonl (add64 msg.len 1 % u32_mod)) ≡ net_bytes (suc msg.len) =
      host_bytes-htonl (add64 msg.len 1 % u32_mod) ∙ ap net_bytes (sum_small msg.len can.small) in
    let io1 = (write_cb io (net_bytes (suc msg.len))).1 in
    let io2 = (write_cb io1 (msg.msgid ∷ [])).1 in
    let (io3, run, took) = send_data-taken write_cb sink msg can.within io2 in
    (
      io3,
      ap
            (λ bytes.
              sent write_cb io bytes
                (λ io'. sent write_cb io' (msg.msgid ∷ []) (send_data write_cb msg)))
            header
          ∙ sent-on write_cb io (net_bytes (suc msg.len))
              (λ io'. sent write_cb io' (msg.msgid ∷ []) (send_data write_cb msg))
              (λ e. ground (
                arith,
                e,
                sink.counts io (net_bytes (suc msg.len)),
                length-net_bytes (suc msg.len),
              ))
          ∙ sent-on write_cb io1 (msg.msgid ∷ []) (send_data write_cb msg)
              (λ e. ground (arith, e, sink.counts io1 (msg.msgid ∷ [])))
          ∙ run,
      took
          ∙ ap (λ bytes. bytes ++ payload)
              (sink.takes io1 (msg.msgid ∷ [])
                ∙ ap (λ bytes. bytes ++ (msg.msgid ∷ [])) (sink.takes io (net_bytes (suc msg.len))))
          ∙ joined (taken io) msg.msgid msg.len payload
              (omega (arith, length-take msg.len (cells msg.body))),
    )
