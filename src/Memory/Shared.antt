-- ===== src/Memory/Shared.antt =====
-- Configurations of src/riak_config.c: the allocator that they share, and their logging and blocks.
use riak_c_client.Base.{
  ℕ, ◌+◌, ◌≡◌, refl, ◌⊎◌, inl, inr, true, false, Option, none, some, arith, ◌==◌, if◌then◌else◌,
}
use riak_c_client.Error.{
  RiakError, eriak_ok, eriak_out_of_memory, eriak_logging, eriak_uninitialized,
}
use riak_c_client.Memory.{AllocFn, Heap, Cmd, free_if, pure, ◌>>=◌}
use riak_c_client.Memory.Returns
use riak_c_client.Memory.Returns.{Returns, returns, Moved, call_malloc-Returns}
use riak_c_client.Memory.Settings.{
  PbAllocator, Settings, Chosen, sizeof_config, or_default, set_pb, settings_of, config_new,
  config_set_logging, config_free, pb_allocator,
}

-- Both functions for protobuf-c are given.
pub record HasPb (chosen : Chosen) (pb_alloc pb_free : ℕ) : Type 0 where
  pub alloc : chosen.pb_alloc ≡ some pb_alloc
  pub free : chosen.pb_free ≡ some pb_free

-- The first configuration, and the shared allocator, once a second configuration is made.
abbrev pub two_configs :
    AllocFn
    → ℕ
    → Chosen
    → Chosen
    → PbAllocator
    → Cmd (Option Settings × Option Settings × PbAllocator)
two_configs malloc free chosen chosen' pb = do
  (err, first, pb1) ← config_new malloc free chosen pb
  (err', second, pb2) ← config_new malloc free chosen' pb1
  pure (first, second, pb2)

-- The configuration points to an allocator of these functions.
abbrev pub UsesPb : ℕ → ℕ → PbAllocator → Settings → Type 0
UsesPb alloc free pb cfg =
    pb_allocator cfg pb ≡ some (record { alloc = alloc; tmp_alloc = alloc; free = free })

-- Nothing for NULL.
abbrev pub OfSome : {A : Type 0} → (A → Type 0) → Option A → Type 0
OfSome P none = Unit {0}
OfSome P (some a) = P a

-- No memory, or a new configuration and its block.
abbrev Made :
    AllocFn
    → ℕ
    → Chosen
    → PbAllocator
    → Heap
    → RiakError × Option Settings × PbAllocator
    → Heap
    → Type 0
Made malloc free chosen pb h r g =
    ((r ≡ (eriak_out_of_memory, none, pb)) × Moved h 0 0 g)
    ⊎ ((r ≡ (
      eriak_ok,
      some (settings_of malloc free chosen),
      set_pb chosen.pb_alloc chosen.pb_free pb,
    ))
        × Moved h 1 0 g)

config_new-Made :
    (malloc : AllocFn) (free : ℕ) (chosen : Chosen) (pb : PbAllocator) (h : Heap)
    → Returns (Made malloc free chosen pb h) (config_new malloc free chosen pb h)
unfolding config_new
config_new-Made malloc free chosen pb h =
    Returns.bind (call_malloc-Returns (or_default malloc chosen.alloc) sizeof_config h)
      (elim [ false ↦ λ g m. returns (inl (refl, m)) | true ↦ λ g m. returns (inr (refl, m)) ])

-- What two configurations, made or not, say of the shared allocator.
abbrev SharePb :
    ℕ
    → ℕ
    → RiakError × Option Settings × PbAllocator
    → RiakError × Option Settings × PbAllocator
    → Type 0
SharePb alloc free first second =
    OfSome (λ cfg. UsesPb alloc free second.2 cfg × OfSome (UsesPb alloc free second.2) first.1)
      second.1

module _ (malloc : AllocFn) (free : ℕ) {chosen chosen' : Chosen} {alloc pb_free alloc' pb_free' : ℕ}
    (pb : PbAllocator) (h : Heap) (has : HasPb chosen alloc pb_free)
    (has' : HasPb chosen' alloc' pb_free') where
  shares :
      (r r' : RiakError × Option Settings × PbAllocator) (g k : Heap)
      → Made malloc free chosen pb h r g
      → Made malloc free chosen' r.2 g r' k
      → SharePb alloc' pb_free' r r'
  shares r r' g k first (inl (e, _)) = rw e tt
  shares r r' g k (inl (e, _)) (inr (e', _)) = rw (e', e, has'.alloc, has'.free) (refl, tt)
  shares r r' g k (inr (e, _)) (inr (e', _)) =
      rw (e', e, has.alloc, has.free, has'.alloc, has'.free) (refl, refl)

  -- Two configurations, each with two functions of its own for protobuf-c, made one after the other by
  -- riak_config_new, with any allocators: where there is memory for the second, both it and the first, if that was
  -- made, point to an allocator of the second one's functions.
  pub config_new-shared :
      Returns
        (λ r g.
          OfSome
            (λ second. UsesPb alloc' pb_free' r.2 second × OfSome (UsesPb alloc' pb_free' r.2) r.0)
            r.1)
        (two_configs malloc free chosen chosen' pb h)
  config_new-shared = Returns.bind (config_new-Made malloc free chosen pb h) λ r g first.
      Returns.bind (config_new-Made malloc free chosen' r.2 g)
        λ r' k second. returns (shares r r' g k first second)

-- What riak_config_set_logging and then riak_config_free do to a configuration that is there.
abbrev logged :
    Option ℕ
    → Option ℕ
    → Option (Option ℕ → ℕ)
    → Option ℕ
    → Option Settings
    → Cmd (RiakError × Option (ℕ × Option ℕ))
logged log_data log_fn log_init log_cleanup made =
    let (err, cfg) = config_set_logging made log_data log_fn log_init log_cleanup in
    elim cfg [ none ↦ pure (err, none) | some c ↦ do call ← config_free c; pure (err, call) ]

-- The blocks are even; nothing was made; or the logging was started, and ended whatever that answered.
abbrev HasEnded :
    Option ℕ
    → (Option ℕ → ℕ)
    → ℕ
    → Heap
    → RiakError × RiakError × Option (ℕ × Option ℕ)
    → Heap
    → Type 0
HasEnded log_data log_init cleanup h (made, set, call) g =
    (g.mallocs + h.frees ≡ h.mallocs + g.frees)
    × (((made ≡ eriak_out_of_memory) × (set ≡ eriak_uninitialized) × (call ≡ none))
        ⊎ ((made ≡ eriak_ok)
            × (set ≡ (if log_init log_data == 0 then eriak_ok else eriak_logging))
            × (call ≡ some (cleanup, log_data))))

-- The life of a configuration with logging.
abbrev with_logging :
    AllocFn
    → ℕ
    → Chosen
    → PbAllocator
    → Option ℕ
    → Option ℕ
    → (Option ℕ → ℕ)
    → ℕ
    → Cmd (RiakError × RiakError × Option (ℕ × Option ℕ))
with_logging malloc free chosen pb log_data log_fn log_init cleanup = do
  (err, cfg, pb') ← config_new malloc free chosen pb
  (set, call) ← logged log_data log_fn (some log_init) (some cleanup) cfg
  pure (err, set, call)

-- riak_config_new, riak_config_set_logging with a function that starts the logging and one that ends it, and
-- riak_config_free of the configuration: without memory for it they return ERIAK_OUT_OF_MEMORY and
-- ERIAK_UNINITIALIZED. Else the setting returns ERIAK_OK if the first function answers 0, ERIAK_LOGGING if not, and
-- the second function is called with the data at the end whatever the first has answered. As many blocks are given
-- back as were taken.
config_new-free :
    (malloc : AllocFn) (free : ℕ) (chosen : Chosen) (pb : PbAllocator) (log_data log_fn : Option ℕ)
    (log_init : Option ℕ → ℕ) (cleanup : ℕ) (h : Heap)
    → Returns
        (HasEnded log_data log_init cleanup h)
        (with_logging malloc free chosen pb log_data log_fn log_init cleanup h)
unfolding config_set_logging config_free free_if
config_new-free malloc free chosen pb log_data log_fn log_init cleanup h =
    Returns.bind (config_new-Made malloc free chosen pb h) λ r g first. ended r g first
  where
    ended :
        (r : RiakError × Option Settings × PbAllocator) (g : Heap)
        → Made malloc free chosen pb h r g
        → Returns (HasEnded log_data log_init cleanup h) (
            (do
              (set, call) ← logged log_data log_fn (some log_init) (some cleanup) r.1
              pure (r.0, set, call))
              g)
    ended r g (inl (e, m)) = rw e (returns (omega arith, inl (refl, refl, refl)))
    ended r g (inr (e, m)) = rw e (returns (omega arith, inr (refl, refl, refl)))
