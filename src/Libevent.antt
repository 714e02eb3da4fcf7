-- ===== src/Libevent.antt =====
-- riak_libevent_result_cb of src/adapters/riak_libevent.h: each time the connection has bytes to
-- read, libevent calls it, and it calls riak_read, whose error it drops. Once the response is done
-- it frees the buffer event, so that no further call comes.
pub mod Event
pub mod Lifetime
mod Tests
use riak_c_client.Base.{ℕ, zero, suc, true, false, Option, List}
use riak_c_client.Memory.{Cmd, pure, ◌>>=◌}
use riak_c_client.ServerError.{PbErrorResp}
use riak_c_client.Wire.Read.{Reply, Reading, Decode, read}

module _ {D R S : Type 0} (read_cb : S → ℕ → Reply × S) (decode : Decode D R)
    (unpack_error : List ℕ → Option PbErrorResp) (fuel : ℕ) where
  -- `riak_libevent_result_cb` on so many read events.
  unfoldable pub result_cbs : ℕ → Reading D R S → Cmd (Reading D R S)
  result_cbs zero s = pure s
  result_cbs (suc events) s = do
    (err, s') ← read read_cb decode unpack_error fuel s
    elim (s'.done) [ true ↦ pure s' | false ↦ result_cbs events s' ]
