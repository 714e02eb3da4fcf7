-- ===== src/Memory/Settings.antt =====
-- riak_config_new, riak_config_set_logging and riak_config_free of src/riak_config.c, and the allocator of protobuf-c that
-- all configurations of the process share.
--
-- A function pointer that is stored and not called here is its number.
use riak_c_client.Base.{
  ℕ, ◌==◌, Bool, true, false, Option, none, some, is_some, ◌&&◌, if◌then◌else◌,
}
use riak_c_client.Error.{
  RiakError, eriak_ok, eriak_out_of_memory, eriak_uninitialized, eriak_logging,
}
use riak_c_client.Memory.{AllocFn, Cmd, pure, ◌>>=◌, ◌>>◌, Config, call_malloc, free_if}

-- `protobuf_c_default_allocator`, which protobuf-c takes where it is given NULL for its allocator.
pub record PbAllocator : Type 0 where
  pub alloc : ℕ
  pub tmp_alloc : ℕ
  pub free : ℕ

-- The whole `_riak_config`; of `pb_allocator` whether it points to the default allocator or is NULL. The function
-- that starts the logging is applied to its data.
pub record Settings : Type 0 where
  pub malloc_fn : AllocFn
  pub realloc_fn : Option ℕ
  pub free_fn : ℕ
  pub has_pb_allocator : Bool
  pub log_data : Option ℕ
  pub log_fn : Option ℕ
  pub log_init_fn : Option (Option ℕ → ℕ)
  pub log_cleanup_fn : Option ℕ

-- What riak_config_new is given; `none` for NULL.
pub record Chosen : Type 0 where
  pub alloc : Option AllocFn
  pub realloc : Option ℕ
  pub freeme : Option ℕ
  pub pb_alloc : Option ℕ
  pub pb_free : Option ℕ

abbrev pub sizeof_config : ℕ
sizeof_config = 64

abbrev pub or_default : {A : Type 0} → A → Option A → A
or_default default none = default
or_default default (some a) = a

-- `if (pb_alloc != NULL && pb_free != NULL)`: the default allocator is changed for the whole process.
abbrev pub set_pb : Option ℕ → Option ℕ → PbAllocator → PbAllocator
set_pb (some alloc) (some free) pb = record { alloc = alloc; tmp_alloc = alloc; free = free }
set_pb _ _ pb = pb

-- The new configuration. The parameter realloc hides the function of the C library, so that NULL stays NULL.
abbrev pub settings_of : AllocFn → ℕ → Chosen → Settings
settings_of malloc free chosen = record {
  malloc_fn = or_default malloc chosen.alloc;
  realloc_fn = chosen.realloc;
  free_fn = or_default free chosen.freeme;
  has_pb_allocator = is_some chosen.pb_alloc && is_some chosen.pb_free;
  log_data = none;
  log_fn = none;
  log_init_fn = none;
  log_cleanup_fn = none;
}

-- `riak_config_new`; `malloc` and `free` are those of the C library.
unfoldable pub config_new :
    AllocFn → ℕ → Chosen → PbAllocator → Cmd (RiakError × Option Settings × PbAllocator)
config_new malloc free chosen pb = do
  got ← call_malloc (or_default malloc chosen.alloc) sizeof_config
  elim got [
    | false ↦ pure (eriak_out_of_memory, none, pb)
    | true ↦
        pure (
          eriak_ok,
          some (settings_of malloc free chosen),
          set_pb chosen.pb_alloc chosen.pb_free pb,
        )
  ]

-- What `riak_config_set_logging` returns once the functions are set.
abbrev pub started : Option (Option ℕ → ℕ) → Option ℕ → RiakError
started none log_data = eriak_ok
started (some log_init) log_data = if log_init log_data == 0 then eriak_ok else eriak_logging

-- `riak_config_set_logging`
unfoldable pub config_set_logging :
    Option Settings
    → Option ℕ
    → Option ℕ
    → Option (Option ℕ → ℕ)
    → Option ℕ
    → RiakError × Option Settings
config_set_logging none log_data log_fn log_init log_cleanup = (eriak_uninitialized, none)
config_set_logging (some cfg) log_data log_fn log_init log_cleanup = (
  started log_init log_data,
  some (record cfg {
    log_data = log_data;
    log_fn = log_fn;
    log_init_fn = log_init;
    log_cleanup_fn = log_cleanup;
  }),
)

-- `riak_config_free`: the function that ends the logging is called with its data, if it is set.
unfoldable pub config_free : Settings → Cmd (Option (ℕ × Option ℕ))
config_free cfg = do
  free_if true
  pure (elim (cfg.log_cleanup_fn) [ none ↦ none | some cleanup ↦ some (cleanup, cfg.log_data) ])

-- What the functions that allocate and free see of a configuration.
abbrev pub allocation : Settings → Config
allocation cfg = record { malloc_fn = some cfg.malloc_fn }

-- What the pointer `pb_allocator` points to; `none` for NULL.
abbrev pub pb_allocator : Settings → PbAllocator → Option PbAllocator
pb_allocator cfg pb = if cfg.has_pb_allocator then some pb else none
