-- ===== src/Wire/Body.antt =====
-- The assembly of a message's body by riak_read of src/riak.c, however the transport cuts it.
use riak_c_client.Base.{
  ℕ, zero, suc, ◌+◌, ◌-◌, ◌%◌, ◌^◌, ◌≤◌, ◌<◌, ◌≡◌, refl, sym, ap, ap₂, ◌∙◌, Bool, true, false,
  Option, none, some, List, [], ◌∷◌, ◌++◌, arith, length, take, drop, put_run, write_run, add32,
  sub32, u32_mod, ltb, lt→ltb, le→ltb, ◌==◌, append_assoc, take-append, length-append,
  if◌then◌else◌, ◌||◌,
}
use riak_c_client.Base
use riak_c_client.Error.{eriak_ok}
use riak_c_client.Memory.{Heap, ok}
use riak_c_client.ServerError.{PbErrorResp}
use riak_c_client.Wire.Read.{
  Reply, got, Reading, return, Decode, read_body, after_body, deliver, store_bytes,
}

put_run-take :
    (block bytes : List ℕ) (i : ℕ)
    → i ≤ length block
    → take (i + length bytes) (put_run block i bytes) ≡ take i block ++ bytes
put_run-take block bytes zero h =
    let e : 0 + length bytes ≡ length bytes = omega arith in
    rw e (take-append bytes (drop (length bytes) block))
put_run-take [] bytes (suc i) h = absurd (omega arith)
put_run-take (x ∷ block) bytes (suc i) h =
    let e : suc i + length bytes ≡ suc (i + length bytes) = omega arith in
    rw e (ap (λ r. x ∷ r) (put_run-take block bytes i (omega arith)))

length-put_run :
    (block bytes : List ℕ) (i : ℕ)
    → i + length bytes ≤ length block
    → length (put_run block i bytes) ≡ length block
length-put_run block bytes zero h =
    omega (
      arith,
      length-append bytes (drop (length bytes) block),
      Base.length-drop (length bytes) block,
    )
length-put_run [] bytes (suc i) h = absurd (omega arith)
length-put_run (x ∷ block) bytes (suc i) h =
    omega (arith, length-put_run block bytes i (omega arith))

store_bytes-some :
    (block bytes : List ℕ) (i : ℕ)
    → i + length bytes ≤ length block
    → store_bytes (some block) i bytes ≡ some (some (put_run block i bytes))
store_bytes-some block bytes i h = ground arith

-- The operation has the length of its message and has read `part` of it, but not all.
pub record IsMidBody {D R S : Type 0} (s : Reading D R S) (buf part : List ℕ) : Type 0 where
  pub buffer : s.rop.msgbuf ≡ some buf
  pub complete : s.rop.msglen_complete ≡ true
  pub whole : length buf ≡ s.rop.msglen
  pub small : s.rop.msglen < 2 ^ 32
  pub at_part : s.rop.position ≡ length part
  pub partial_len : length part < s.rop.msglen
  pub read_so_far : take s.rop.position buf ≡ part

module _ {D R S : Type 0} where
  -- The reading with `buf` in the buffer and the position at the length `n`.
  abbrev pub filled : Reading D R S → List ℕ → ℕ → S → Reading D R S
  filled s buf n io = record s { rop = record (s.rop) { position = n; msgbuf = some buf }; io = io }

  -- The reading when the whole body is there, in a call that has just begun.
  abbrev pub arrived : Reading D R S → List ℕ → S → Reading D R S
  arrived s body io = record (filled s body s.rop.msglen io) { done = false }

module _ {D R S : Type 0} (read_cb : S → ℕ → Reply × S) (decode : Decode D R)
    (unpack_error : List ℕ → Option PbErrorResp) {s : Reading D R S} {buf part : List ℕ}
    (mid : IsMidBody s buf part) (bytes : List ℕ) {io : S}
    (answer : read_cb s.io (s.rop.msglen - length part) ≡ (got bytes, io)) (h : Heap) where
  body_step :
      length part + length bytes ≤ s.rop.msglen
      → read_body read_cb decode unpack_error s h
        ≡ after_body read_cb decode unpack_error
            (filled s (put_run buf (length part) bytes) (length part + length bytes) io)
            h
  unfolding read_body
  body_step fits =
      let asked : sub32 s.rop.msglen s.rop.position ≡ s.rop.msglen - length part =
        omega (arith, mid.at_part, mid.small) in
      let moved : add32 s.rop.position (length bytes) ≡ length part + length bytes =
        omega (arith, mid.at_part, mid.small) in
      let moved' : (length part + length bytes) % u32_mod ≡ length part + length bytes =
        omega (arith, mid.small) in
      let stored : store_bytes (some buf) (length part) bytes
          ≡ some (some (put_run buf (length part) bytes)) =
        store_bytes-some buf bytes (length part) (omega (arith, mid.whole)) in
      rw (asked, answer, mid.buffer, mid.at_part, stored, moved')

  pub took : take (length part) buf ≡ part
  took = ap (λ n. take n buf) (sym mid.at_part) ∙ mid.read_so_far

  -- A read that leaves bytes to come returns, and the operation has read that much more.
  pub body_more :
      length part + length bytes < s.rop.msglen
      → let s' = filled s (put_run buf (length part) bytes) (length part + length bytes) io in
        (read_body read_cb decode unpack_error s h ≡ ok (return eriak_ok s') h)
        × IsMidBody s' (put_run buf (length part) bytes) (part ++ bytes)
  unfolding after_body
  body_more more =
      let short : ltb (length part + length bytes) s.rop.msglen ≡ true = lt→ltb _ _ more in
      (
        body_step (omega arith) ∙ (rw short refl),
        record {
          buffer = refl;
          complete = mid.complete;
          whole = length-put_run buf bytes (length part) (omega (arith, mid.whole)) ∙ mid.whole;
          small = mid.small;
          at_part = sym (length-append part bytes);
          partial_len = omega (arith, length-append part bytes);
          read_so_far =
              put_run-take buf bytes (length part) (omega (arith, mid.whole))
              ∙ ap (λ r. r ++ bytes) took;
        },
      )

  -- A read that completes the body hands it on whole.
  pub body_last :
      length part + length bytes ≡ s.rop.msglen
      → read_body read_cb decode unpack_error s h
        ≡ deliver read_cb decode unpack_error (filled s (part ++ bytes) s.rop.msglen io) h
  unfolding after_body
  body_last last =
      let full : put_run buf (length part) bytes ≡ part ++ bytes =
        sym (
          Base.take_all (length part + length bytes) (put_run buf (length part) bytes)
            (omega (arith, length-put_run buf bytes (length part), mid.whole)))
        ∙ put_run-take buf bytes (length part) (omega (arith, mid.whole))
        ∙ ap (λ r. r ++ bytes) took in
      let not_less : ltb s.rop.msglen s.rop.msglen ≡ false = ground arith in
      let same : (s.rop.msglen == s.rop.msglen) ≡ true = ground arith in
      body_step (omega arith) ∙ rw (full, last, not_less, same)
