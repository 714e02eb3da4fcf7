-- ===== src/Libevent/Lifetime.antt =====
-- The buffer event and the blocks from riak_libevent_new to riak_libevent_free.
use riak_c_client.Base.{
  ◌+◌, ◌≡◌, ◌⊎◌, inl, inr, refl, true, false, none, some, Option, is_some, Bool-cases, arith,
}
use riak_c_client.Error.{RiakError}
use riak_c_client.Memory.{Heap, Config, fault, ◌>>=◌}
use riak_c_client.Memory.Returns
use riak_c_client.Memory.Returns.{
  Returns, returns, one_if, config_clean_allocate-Returns, free_if-Returns, Moved,
}
use riak_c_client.Libevent.Event.{
  Answers, Buffers, RiakLibevent, Events, libevent_new, libevent_free, connection_cb, set_up,
  sizeof_libevent,
}

-- As many buffer events given back as given out.
abbrev pub IsEven : Buffers → Buffers → Type 0
IsEven before after = after.taken + before.given ≡ before.taken + after.given

-- The event has a buffer event, which is in use, and which is one more than before; or it has none.
pub record IsHeld (before : Buffers) (rev : RiakLibevent) (b : Buffers) : Type 0 where
  pub alive :
      rev.bevent ≡ true → (b.alive ≡ true) × (b.taken + before.given ≡ before.taken + b.given + 1)
  pub absent : rev.bevent ≡ false → IsEven before b

free_held :
    (before b : Buffers) (rev : RiakLibevent) (h : Heap)
    → IsHeld before rev b
    → Returns (λ after g. IsEven before after × Moved h 0 1 g) (libevent_free (some rev) b h)
unfolding libevent_free
free_held before b rev h held = elim (Bool-cases (rev.bevent)) [
  | inl on ↦
      let (alive, count) = held.alive on in
      rw (on, alive) (Returns.bind (free_if-Returns true h) λ _ g m. returns (omega arith, m))
  | inr off ↦ rw off (Returns.bind (free_if-Returns true h) λ _ g m. returns (held.absent off, m))
]

set_up-IsHeld :
    (answers : Answers) (before b : Buffers)
    → b.alive ≡ true
    → b.taken + before.given ≡ before.taken + b.given + 1
    → IsHeld before (record { bevent = true }) (set_up answers b).1
unfolding set_up
set_up-IsHeld answers before b alive count = ground arith

-- The event that riak_libevent_new has made, whatever it returns.
abbrev Left : Buffers → RiakError × Option RiakLibevent × Buffers → Type 0
Left before (err, none, b) = b ≡ before
Left before (err, some rev, b) = IsHeld before rev b

libevent_new-Left :
    (cfg : Config) (answers : Answers) (b : Buffers) (h : Heap)
    → Returns
        (λ r g. Left b r × (g.mallocs + h.frees ≡ h.mallocs + g.frees + one_if (is_some r.1)))
        (libevent_new cfg answers b h)
unfolding libevent_new set_up
libevent_new-Left cfg answers b h =
    Returns.bind (config_clean_allocate-Returns (some cfg) sizeof_libevent h) (elim [
      | false ↦ λ g m. returns (refl, omega arith)
      | true ↦ λ g m. elim (Bool-cases (answers.socket_new)) [
        | inl on ↦ rw on (
            returns (
              set_up-IsHeld answers b (record b { alive = true; taken = b.taken + 1 }) refl
                  (omega arith),
              omega arith,
            ))
        | inr off ↦
            rw off (returns (record { alive = λ on. cc; absent = λ off. omega arith }, omega arith))
      ]
    ])

-- For any allocator and any answers of libevent: after riak_libevent_new, whatever it returns, riak_libevent_free of
-- what it has made gives back as many buffer events as were given out, and as many blocks as were taken.
pub libevent_new-free :
    (cfg : Config) (answers : Answers) (b : Buffers) (h : Heap)
    → Returns
        (λ after g. IsEven b after × (g.mallocs + h.frees ≡ h.mallocs + g.frees))
        ((do (err, rev, b') ← libevent_new cfg answers b; libevent_free rev b') h)
unfolding libevent_free
libevent_new-free cfg answers b h =
    Returns.bind (libevent_new-Left cfg answers b h)
      λ (err, rev, b') g (left, count). freed err rev b' g left count
  where
    freed :
        (err : RiakError) (rev : Option RiakLibevent) (b' : Buffers) (g : Heap)
        → Left b (err, rev, b')
        → g.mallocs + h.frees ≡ h.mallocs + g.frees + one_if (is_some rev)
        → Returns
            (λ after k. IsEven b after × (k.mallocs + h.frees ≡ h.mallocs + k.frees))
            (libevent_free rev b' g)
    freed err none b' g left count = returns (rw left (omega arith), omega arith)
    freed err (some rev) b' g left count =
        Returns.mono (free_held b b' rev g left) λ r k (even, moved). (even, omega arith)

-- What riak_libevent_connection_cb closes the connection for.
abbrev pub Ends : Events → Type 0
Ends events =
    (events.connected ≡ false)
    × ((events.error ≡ true) ⊎ (events.eof ≡ true) ⊎ (events.timeout ≡ true))

-- An event whose buffer event is in use: once riak_libevent_connection_cb has been called for an error, the end of
-- the stream or a timeout, and not for a connection, riak_libevent_free gives back a buffer event that was given back
-- before.
pub connection_cb-free :
    (events : Events) (b : Buffers) (h : Heap)
    → b.alive ≡ true
    → Ends events
    → (do b' ← connection_cb events b; libevent_free (some (record { bevent = true })) b') h ≡ fault
unfolding connection_cb libevent_free
connection_cb-free events b h alive ends = ground arith
