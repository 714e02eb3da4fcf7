-- ===== src/Memory/Rich.antt =====
-- Runs with an allocator that always has memory.
use mathlib.Core.Path.{subst}
use riak_c_client.Base.{ℕ, ◌≡◌, refl, sym, Bool, true, some}
use riak_c_client.Memory.{
  AllocFn, Heap, Run, Cmd, and_then, Config, call_malloc, cfg_malloc, config_allocate,
  config_clean_allocate,
}
use riak_c_client.Memory.Returns
use riak_c_client.Memory.Returns.{Returns, returns, config_clean_allocate-eq}

pub record IsRich (cfg : Config) : Type 0 where
  pub alloc : AllocFn
  pub is_set : cfg.malloc_fn ≡ some alloc
  pub always : (n bytes : ℕ) → alloc n bytes ≡ true

-- The call answers `true`, whatever the heap is after it.
abbrev pub Grants : Run Bool → Type 0
Grants run = Returns (λ got after. got ≡ true) run

-- What runs on a value that is known.
pub bind_known :
    {A B : Type 0} {a : A} {Post : B → Heap → Type 0} {run : Run A} (next : A → Cmd B)
    → Returns (λ got after. got ≡ a) run
    → ((after : Heap) → Returns Post (next a after))
    → Returns Post (and_then run next)
bind_known {a = a} {Post = Post} next granted then_returns =
    Returns.bind granted λ got g e. subst (λ b. Returns Post (next b g)) (sym e) (then_returns g)

module _ {cfg : Config} (rich : IsRich cfg) (bytes : ℕ) (h : Heap) where
  call-Grants : Grants (call_malloc rich.alloc bytes h)
  unfolding call_malloc
  call-Grants = rw (rich.always h.calls bytes) (returns refl)

  pub cfg_malloc-Grants : Grants (cfg_malloc cfg bytes h)
  unfolding cfg_malloc
  cfg_malloc-Grants = rw (rich.is_set, cfg_malloc) call-Grants

  pub config_allocate-Grants : Grants (config_allocate (some cfg) bytes h)
  unfolding config_allocate
  config_allocate-Grants = rw (rich.is_set, config_allocate) call-Grants

  pub config_clean_allocate-Grants : Grants (config_clean_allocate (some cfg) bytes h)
  config_clean_allocate-Grants =
      rw (config_clean_allocate-eq (some cfg) bytes h) config_allocate-Grants
