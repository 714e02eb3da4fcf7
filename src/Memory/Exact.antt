-- ===== src/Memory/Exact.antt =====
-- Runs whose result and whose numbers of blocks taken and given back are known.
use mathlib.Core.Path.{subst}
use riak_c_client.Base.{ℕ, ◌+◌, ◌≡◌, refl, sym, Bool, true, some, arith}
use riak_c_client.Memory.{
  Heap, Run, ok, Cmd, and_then, Config, call_malloc, cfg_malloc, config_allocate,
  config_clean_allocate, free_if,
}
use riak_c_client.Memory.Returns
use riak_c_client.Memory.Returns.{
  Returns, returns, Moved, one_if, free_if-Returns, config_clean_allocate-eq,
}
use riak_c_client.Memory.Rich.{IsRich}

-- From `h` the run answers `a`, with `got` blocks given out and `gone` given back.
abbrev pub Gives : {A : Type 0} → Heap → A → ℕ → ℕ → Run A → Type 0
Gives h a got gone run = Returns (λ r g. (r ≡ a) × Moved h got gone g) run

module _ {A : Type 0} where
  pub pure-Gives : (a : A) (h : Heap) → Gives h a 0 0 (ok a h)
  pure-Gives a h = returns (refl, record { taken = omega arith; given = omega arith })

  -- Other names for the numbers.
  pub recount :
      {a : A} {h : Heap} {got gone got' gone' : ℕ} {run : Run A}
      → Gives h a got gone run
      → got ≡ got'
      → gone ≡ gone'
      → Gives h a got' gone' run
  recount gives e e' = Returns.mono gives λ r g (same, moved). (
    same,
    record { taken = omega (arith, moved.taken, e); given = omega (arith, moved.given, e') },
  )

  pub bind-Gives :
      {B : Type 0} {a : A} {b : B} {got gone got' gone' : ℕ} {h : Heap} {run : Run A}
      (next : A → Cmd B)
      → Gives h a got gone run
      → ((g : Heap) → Gives g b got' gone' (next a g))
      → Gives h b (got + got') (gone + gone') (and_then run next)
  bind-Gives {B} {a} {b} {got} {gone} {got'} {gone'} {h} next first then_gives =
      Returns.bind first λ r g (same, moved).
        subst (λ x. Gives h b (got + got') (gone + gone') (next x g)) (sym same)
          (Returns.mono (then_gives g) λ r' k (same', moved'). (
            same',
            record {
              taken = omega (arith, moved.taken, moved'.taken);
              given = omega (arith, moved.given, moved'.given);
            },
          ))

module _ {cfg : Config} (rich : IsRich cfg) (bytes : ℕ) (h : Heap) where
  call-Gives : Gives h true 1 0 (call_malloc rich.alloc bytes h)
  unfolding call_malloc
  call-Gives =
      rw (rich.always h.calls bytes) (returns (refl, record { taken = refl; given = omega arith }))

  pub cfg_malloc-Gives : Gives h true 1 0 (cfg_malloc cfg bytes h)
  unfolding cfg_malloc
  cfg_malloc-Gives = rw (rich.is_set, cfg_malloc) call-Gives

  pub config_allocate-Gives : Gives h true 1 0 (config_allocate (some cfg) bytes h)
  unfolding config_allocate
  config_allocate-Gives = rw (rich.is_set, config_allocate) call-Gives

  pub config_clean_allocate-Gives : Gives h true 1 0 (config_clean_allocate (some cfg) bytes h)
  config_clean_allocate-Gives =
      rw (config_clean_allocate-eq (some cfg) bytes h) config_allocate-Gives

pub free_if-Gives : (b : Bool) (h : Heap) → Gives h tt 0 (one_if b) (free_if b h)
free_if-Gives b h = Returns.mono (free_if-Returns b h) λ r g moved. (refl, moved)
