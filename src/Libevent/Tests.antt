-- ===== src/Libevent/Tests.antt =====
-- Buffer events with concrete answers of libevent.
use riak_c_client.Base.{◌+◌, ◌≡◌, refl, true, false, some, inl, inr}
use riak_c_client.Memory.{fault, ◌>>=◌}
use riak_c_client.Memory.Returns.{Returns}
use riak_c_client.Libevent.Event.{
  Answers, Buffers, Events, libevent_new, libevent_free, connection_cb,
}
use riak_c_client.Libevent.Lifetime.{IsEven, libevent_new-free, connection_cb-free}
use riak_c_client.Wire.Tests.{rich, start}

-- The buffer event cannot be enabled.
abbrev disabled : Answers
disabled = record { socket_new = true; base_set_fails = false; enable = 1 }

abbrev unused : Buffers
unused = record { alive = false; taken = 0; given = 0; has_callbacks = false; loop_exits = 0 }

libevent_new-free_example :
    Returns
      (λ after g. IsEven unused after × (g.mallocs + start.frees ≡ start.mallocs + g.frees))
      ((do (err, rev, b') ← libevent_new rich disabled unused; libevent_free rev b') start)
libevent_new-free_example = libevent_new-free rich disabled unused start

-- The server has closed the connection.
abbrev at_eof : Events
at_eof = record { connected = false; error = false; eof = true; timeout = false }

abbrev in_use : Buffers
in_use = record unused { alive = true; taken = 1; has_callbacks = true }

connection_cb-free_example :
    (do b' ← connection_cb at_eof in_use; libevent_free (some (record { bevent = true })) b') start
    ≡ fault
connection_cb-free_example = connection_cb-free at_eof in_use start refl (refl, inr (inl refl))
