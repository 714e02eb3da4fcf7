-- ===== src/Operation/Tests.antt =====
-- The theorems on src/riak_operation.c at a concrete operation.
use riak_c_client.Base.{true, none, some, [], ◌∷◌, arith}
use riak_c_client.Memory.{Heap}
use riak_c_client.Memory.Returns.{Returns, Moved}
use riak_c_client.Connection.{Connection}
use riak_c_client.Binary.{Binary}
use riak_c_client.Binary.Print.{HasBytes}
use riak_c_client.Operation.{Operation, fresh, free}
use riak_c_client.Operation.Lifetime.{owned, free-owned}

abbrev cxn : Connection
cxn = record {
  config = record { malloc_fn = some (λ n bytes. true) };
  hostname = [];
  portnum = [];
  has_addrinfo = true;
  fd = 3;
}

abbrev start : Heap
start = record { calls = 9; mallocs = 9; frees = 2 }

abbrev ab : Binary
ab = record { len = 2; data_block = some (97 ∷ 98 ∷ []); managed = true }

ab-HasBytes : HasBytes ab
ab-HasBytes = record { within = omega arith }

-- An operation with a request, a bucket and a key.
abbrev busy : Operation (Unit {0}) (Unit {0})
busy = record (fresh cxn none none 0) {
  pb_request = some (record { len = 1; msgid = 9; body = some (5 ∷ []) });
  request = record { bucket_type = none; bucket = some ab; key = some ab; index = none };
}

free-owned_example : Returns (λ _. Moved start 0 (owned busy)) (free busy start)
free-owned_example = free-owned busy start
