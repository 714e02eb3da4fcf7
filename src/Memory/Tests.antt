-- ===== src/Memory/Tests.antt =====
-- Configurations with concrete functions.
use riak_c_client.Base.{ℕ, refl, true, none, some}
use riak_c_client.Memory.{AllocFn, Heap}
use riak_c_client.Memory.Returns.{Returns}
use riak_c_client.Memory.Settings.{PbAllocator, Chosen}
use riak_c_client.Memory.Shared.{UsesPb, OfSome, two_configs, config_new-shared}

abbrev malloc : AllocFn
malloc n bytes = true

abbrev untouched : Heap
untouched = record { calls = 0; mallocs = 0; frees = 0 }

-- The default functions of protobuf-c, and two configurations with functions of their own.
abbrev system_pb : PbAllocator
system_pb = record { alloc = 1; tmp_alloc = 1; free = 2 }

abbrev own : ℕ → ℕ → Chosen
own a f = record {
  alloc = none;
  realloc = none;
  freeme = none;
  pb_alloc = some a;
  pb_free = some f;
}

config_new-shared_example :
    Returns
      (λ r g. OfSome (λ second. UsesPb 30 40 r.2 second × OfSome (UsesPb 30 40 r.2) r.0) r.1)
      (two_configs malloc 5 (own 10 20) (own 30 40) system_pb untouched)
config_new-shared_example =
    config_new-shared malloc 5 system_pb untouched (record { alloc = refl; free = refl })
      (record { alloc = refl; free = refl })
