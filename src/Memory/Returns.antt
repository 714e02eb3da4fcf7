-- ===== src/Memory/Returns.antt =====
-- Total correctness of a run: no fault, enough fuel, and a postcondition; with the rules of the
-- allocator's calls.
use riak_c_client.Base.{
  ℕ, ◌+◌, ◌≡◌, refl, sym, Bool, true, false, Option, none, some, Bool-cases, inl, inr, arith,
}
use riak_c_client.Memory.{
  AllocFn, Heap, Run, ok, Cmd, and_then, Config, call_malloc, config_allocate,
  config_clean_allocate, free_if,
}

pub data Returns {Result : Type 0} (Post : Result → Heap → Type 0) : Run Result → Type 0 where
  returns : {result : Result} {after : Heap} → Post result after → Returns Post (ok result after)

module _ {Result : Type 0} {Post : Result → Heap → Type 0} where
  -- A weaker postcondition.
  pub mono :
      {Weaker : Result → Heap → Type 0} {run : Run Result}
      → Returns Post run
      → ((result : Result) (after : Heap) → Post result after → Weaker result after)
      → Returns Weaker run
  mono (returns holds) weaken = returns (weaken _ _ holds)

  -- What runs on the result.
  pub bind :
      {Next : Type 0} {NextPost : Next → Heap → Type 0} {run : Run Result}
      {next : Result → Cmd Next}
      → Returns Post run
      → ((result : Result) (after : Heap)
          → Post result after
          → Returns NextPost (next result after))
      → Returns NextPost (and_then run next)
  bind (returns holds) then_returns = then_returns _ _ holds

-- From `h` to `g`, `got` blocks were given out and `gone` given back.
pub record Moved (h : Heap) (got gone : ℕ) (g : Heap) : Type 0 where
  pub taken : g.mallocs ≡ h.mallocs + got
  pub given : g.frees ≡ h.frees + gone

-- One more block on success, none on failure.
abbrev pub Allocated : Heap → Bool → Heap → Type 0
Allocated h true g = Moved h 1 0 g
Allocated h false g = Moved h 0 0 g

pub call_malloc-Returns :
    (f : AllocFn) (bytes : ℕ) (h : Heap) → Returns (Allocated h) (call_malloc f bytes h)
unfolding call_malloc
call_malloc-Returns f bytes h = elim (Bool-cases (f h.calls bytes)) [
  | inl e ↦ rw e (returns (omega arith))
  | inr e ↦ rw e (returns (omega arith))
]

config_allocate-fn :
    (f : Option AllocFn) (bytes : ℕ) (h : Heap)
    → Returns (Allocated h) (config_allocate (some (record { malloc_fn = f })) bytes h)
unfolding config_allocate
config_allocate-fn none bytes h = returns (omega arith)
config_allocate-fn (some f) bytes h = call_malloc-Returns f bytes h

-- riak_config_allocate always answers, and an answer of NULL leaves the counts of blocks alone.
pub config_allocate-Returns :
    (c : Option Config) (bytes : ℕ) (h : Heap) → Returns (Allocated h) (config_allocate c bytes h)
unfolding config_allocate
config_allocate-Returns none bytes h = returns (omega arith)
config_allocate-Returns (some cfg) bytes h = config_allocate-fn cfg.malloc_fn bytes h

-- Whether the allocation function has a block for the n-th call.
abbrev pub grants : Config → ℕ → ℕ → Bool
grants cfg n bytes = elim (cfg.malloc_fn) [ none ↦ false | some f ↦ f n bytes ]

-- What an allocation answers, with the count of the calls where there is an answer.
abbrev pub Granted : Config → ℕ → Heap → Bool → Heap → Type 0
Granted cfg bytes h got g =
    Allocated h got g × (got ≡ grants cfg h.calls bytes) × (got ≡ true → g.calls ≡ h.calls + 1)

call_malloc-Granted :
    (f : AllocFn) (bytes : ℕ) (h : Heap)
    → Returns (Granted (record { malloc_fn = some f }) bytes h) (call_malloc f bytes h)
unfolding call_malloc
call_malloc-Granted f bytes h = elim (Bool-cases (f h.calls bytes)) [
  | inl e ↦ rw e (returns (omega arith, sym e, λ on. refl))
  | inr e ↦ rw e (returns (omega arith, sym e, λ on. ground (arith, on)))
]

config_allocate_fn-Granted :
    (f : Option AllocFn) (bytes : ℕ) (h : Heap)
    → let cfg : Config = record { malloc_fn = f } in
      Returns (Granted cfg bytes h) (config_allocate (some cfg) bytes h)
unfolding config_allocate
config_allocate_fn-Granted none bytes h = returns (omega arith, refl, λ on. ground (arith, on))
config_allocate_fn-Granted (some f) bytes h = call_malloc-Granted f bytes h

pub config_allocate-Granted :
    (cfg : Config) (bytes : ℕ) (h : Heap)
    → Returns (Granted cfg bytes h) (config_allocate (some cfg) bytes h)
config_allocate-Granted cfg bytes h = config_allocate_fn-Granted cfg.malloc_fn bytes h

pub config_clean_allocate-eq :
    (c : Option Config) (bytes : ℕ) (h : Heap)
    → config_clean_allocate c bytes h ≡ config_allocate c bytes h
unfolding config_clean_allocate config_allocate
config_clean_allocate-eq none bytes h = refl
config_clean_allocate-eq (some cfg) bytes h = refl

pub config_clean_allocate-Returns :
    (c : Option Config) (bytes : ℕ) (h : Heap)
    → Returns (Allocated h) (config_clean_allocate c bytes h)
config_clean_allocate-Returns c bytes h =
    rw (config_clean_allocate-eq c bytes h) (config_allocate-Returns c bytes h)

abbrev pub one_if : Bool → ℕ
one_if true = 1
one_if false = 0

pub free_if-Returns : (b : Bool) (h : Heap) → Returns (λ _. Moved h 0 (one_if b)) (free_if b h)
unfolding free_if
free_if-Returns true h = returns (omega arith)
free_if-Returns false h = returns (omega arith)
