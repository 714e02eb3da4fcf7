-- ===== src/Messages/Clock.antt =====
-- The vector clock of the options of a request, and the blocks that it owns: of src/messages/riak_delete.c,
-- src/messages/riak_put.c and src/messages/riak_get.c.
use riak_c_client.Base.{ℕ, ◌+◌, ◌≡◌, ◌&&◌, refl, Option, none, some, is_some, arith}
use riak_c_client.Memory.{Heap, Config}
use riak_c_client.Memory.Returns
use riak_c_client.Memory.Returns.{Returns, returns, one_if, free_if-Returns}
use riak_c_client.Binary.{Binary}
use riak_c_client.Binary.Print.{HasBytes}
use riak_c_client.Binary.Blocks
use riak_c_client.Messages.Delete.{DeleteOptions}
use riak_c_client.Messages.Delete.Options.{delete_options_set_vclock}
use riak_c_client.Messages.Put.{PutOptions}
use riak_c_client.Messages.Put.Options.{put_options_set_vclock}

-- The block of its bytes that a binary owns, apart from its own.
abbrev pub data_owned : Option Binary → ℕ
data_owned none = 0
data_owned (some b) = one_if (b.managed && is_some b.data_block)

-- riak_delete_options_set_vclock of a binary whose bytes lie in its block returns, and loses nothing: the
-- blocks of the old vector clock and those taken are those given back and those of the new one.
pub delete_options_set_vclock-owned :
    (cfg : Config) (opt : DeleteOptions) {v : Binary} (h : Heap)
    → HasBytes v
    → Returns
        (λ opt' g.
          Blocks.owned opt'.vclock.content + h.mallocs + g.frees
          ≡ Blocks.owned opt.vclock.content + g.mallocs + h.frees)
        (delete_options_set_vclock cfg opt (some v) h)
unfolding delete_options_set_vclock
delete_options_set_vclock-owned cfg opt {v} h has =
    Returns.bind (Blocks.free-Returns opt.vclock.content h) λ _ g m.
      Returns.bind (Blocks.copy-IsEqualCopy cfg v g has) λ b k p. returns (omega (arith, p.2))

-- The block of an old binary, apart from its bytes.
split : (b : Option Binary) → Blocks.owned b ≡ data_owned b + one_if (is_some b)
split none = refl
split (some b) = refl

-- riak_put_options_set_vclock of a binary whose bytes lie in its block returns, but the block with the
-- bytes of the old vector clock is lost, if the old one owns it: neither given back nor owned by the new one.
pub put_options_set_vclock-lost :
    (cfg : Config) (opt : PutOptions) {v : Binary} (h : Heap)
    → HasBytes v
    → Returns
        (λ opt' g.
          Blocks.owned opt'.vclock.content + data_owned opt.vclock.content + h.mallocs + g.frees
          ≡ Blocks.owned opt.vclock.content + g.mallocs + h.frees)
        (put_options_set_vclock cfg opt (some v) h)
unfolding put_options_set_vclock
put_options_set_vclock-lost cfg opt {v} h has =
    Returns.bind (free_if-Returns (is_some opt.vclock.content) h) λ _ g m.
      Returns.bind (Blocks.copy-IsEqualCopy cfg v g has)
        λ b k p. returns (omega (arith, p.2, split opt.vclock.content))
