-- ===== src/Messages/Listing/Valid.antt =====
-- What a streamed listing holds after the messages decoded so far.
use mathlib.Core.Path.{subst}
use riak_c_client.Base.{
  ℕ, ◌+◌, ◌^◌, ◌<◌, ◌≡◌, refl, sym, ap, Bool, true, false, Option, none, some, List, [], ◌∷◌, ◌++◌,
  map, arith, length, replicate, write_at, add32, length-append, length-map, ltb, if◌then◌else◌,
}
use riak_c_client.Error.{eriak_ok}
use riak_c_client.Memory.{Heap, Config}
use riak_c_client.Memory.Returns.{Returns, returns}
use riak_c_client.Memory.Rich.{IsRich, bind_known, cfg_malloc-Grants}
use riak_c_client.Binary.{Binary}
use riak_c_client.Message.{PbMessage}
use riak_c_client.Operation.{Operation, get_config}
use riak_c_client.ServerError.{payload}
use riak_c_client.Messages.Listing.{
  PbListing, Listing, empty, sizeof_listing, grown, done_of, result, keep_message, add_items,
  extend, start_or_continue, decode,
}
use riak_c_client.Messages.Listing.Items.{
  write_at-append, grown-Rich, first-Rich, IsWhole, copy_of, copy_items-Rich,
}
use riak_c_client.Messages.Listing.Listed.{
  all_items, item_cells, last_done, listed, listed-append, listing_of, message_cells, response_of,
}

module _ {cfg : Config} (rich : IsRich cfg) (pb : PbListing) where
  -- The vector of messages grows by the message.
  keep_message-Rich :
      (old : Option Listing) (items : List (Option Binary)) (n : ℕ)
      (internal : Option (List (Option PbListing))) (messages : List (Option PbListing)) (h : Heap)
      → n ≡ length messages
      → length messages + 1 < 2 ^ 32
      → ((g : Heap)
          → Returns
              (λ r k. r ≡ some (messages ++ (none ∷ [])))
              (grown cfg (if ltb 0 n then internal else none) n 1 g))
      → Returns
          (λ r g.
            r
            ≡ result eriak_ok
                (some (response_of items (done_of pb) (messages ++ (some pb ∷ []))))
                (done_of pb))
          (keep_message cfg old
            (record {
              n_items = length items;
              items = some items;
              done = done_of pb;
              n_responses = n;
              internal = internal;
            })
            pb
            h)
  unfolding keep_message
  keep_message-Rich old items n internal messages h count small grows = bind_known _ (grows h) λ g.
      let stored : write_at (messages ++ (none ∷ [])) n (some pb)
          ≡ some (messages ++ (some pb ∷ [])) =
        subst
          (λ k. write_at (messages ++ (none ∷ [])) k (some pb) ≡ some (messages ++ (some pb ∷ [])))
          (sym count) (write_at-append messages [] none (some pb)) in
      let more : add32 n 1 ≡ length (messages ++ (some pb ∷ [])) =
        omega (arith, length-append messages (some pb ∷ [])) in
      rw stored (
        returns (
          ap
            (λ k.
              result eriak_ok
                (some (record {
                  n_items = length items;
                  items = some items;
                  done = done_of pb;
                  n_responses = k;
                  internal = some (messages ++ (some pb ∷ []));
                }))
                (done_of pb))
            more))

  -- The vector of items grows by the copies.
  extend-Rich :
      (old : Option Listing) (had : Option (List (Option Binary))) (cells : List (Option Binary))
      (m n : ℕ) (done0 done : Bool) (internal : Option (List (Option PbListing)))
      (messages : List (Option PbListing)) (h : Heap)
      → IsWhole pb.items
      → m ≡ length cells
      → length cells + length pb.items < 2 ^ 32
      → ((g : Heap)
          → Returns
              (λ r k. r ≡ some (cells ++ replicate (length pb.items) none))
              (grown cfg had m (length pb.items) g))
      → n ≡ length messages
      → length messages + 1 < 2 ^ 32
      → ((g : Heap)
          → Returns
              (λ r k. r ≡ some (messages ++ (none ∷ [])))
              (grown cfg (if ltb 0 n then internal else none) n 1 g))
      → Returns
          (λ r g.
            r
            ≡ result eriak_ok
                (some (
                  response_of
                    (cells ++ map (λ item. some (copy_of item)) pb.items)
                    (done_of pb)
                    (messages ++ (some pb ∷ []))))
                (done_of pb))
          (extend cfg old
            (record {
              n_items = m;
              items = had;
              done = done0;
              n_responses = n;
              internal = internal;
            })
            pb
            done
            h)
  unfolding extend add_items
  extend-Rich old had cells m n done0 done internal messages h whole m_is small items_grow n_is few
        messages_grow =
      let copies : List (Option Binary) = map (λ item. some (copy_of item)) pb.items in
      let more : add32 m (length pb.items) ≡ length (cells ++ copies) =
        omega
          (arith, length-append cells copies, length-map (λ item. some (copy_of item)) pb.items) in
      bind_known _ (items_grow h) λ g.
        bind_known _ (copy_items-Rich rich pb.items m 0 cells g whole (omega arith)) λ k.
          rw more
            (keep_message-Rich old (cells ++ copies) n internal messages k n_is few messages_grow)

module _ {cfg : Config} (rich : IsRich cfg) (pb : PbListing) (whole : IsWhole pb.items) where
  -- The first message allocates everything.
  start-Rich :
      (done : Bool) (h : Heap)
      → length pb.items < 2 ^ 32
      → Returns
          (λ r g. r ≡ result eriak_ok (listed (pb ∷ [])) (done_of pb))
          (start_or_continue cfg none pb done h)
  unfolding start_or_continue
  start-Rich done h small = bind_known _ (cfg_malloc-Grants rich sizeof_listing h) λ g.
      subst
        (λ l. Returns (λ r k. r ≡ result eriak_ok l (done_of pb)) (extend cfg none empty pb done g))
        (sym (listed-append [] pb))
        (extend-Rich rich pb none none [] 0 0 false done none [] g whole refl (omega arith)
          (first-Rich rich (length pb.items)) refl (omega arith) (first-Rich rich 1))

  continue-Rich :
      (p : PbListing) (pbs : List PbListing) (done : Bool) (h : Heap)
      → length (item_cells (p ∷ pbs)) + length pb.items < 2 ^ 32
      → length (message_cells (p ∷ pbs)) + 1 < 2 ^ 32
      → Returns
          (λ r g. r ≡ result eriak_ok (listed ((p ∷ pbs) ++ (pb ∷ []))) (done_of pb))
          (start_or_continue cfg (listed (p ∷ pbs)) pb done h)
  unfolding start_or_continue
  continue-Rich p pbs done h small few =
      let items = item_cells (p ∷ pbs) in
      let messages = message_cells (p ∷ pbs) in
      subst
        (λ l.
          Returns (λ r k. r ≡ result eriak_ok l (done_of pb))
            (extend cfg (some (listing_of (p ∷ pbs))) (listing_of (p ∷ pbs)) pb done h))
        (sym (listed-append (p ∷ pbs) pb))
        (extend-Rich rich pb (some (listing_of (p ∷ pbs))) (some items) items (length items)
          (length messages) (last_done (p ∷ pbs)) done (some messages) messages h whole refl small
          (λ g. grown-Rich rich items (length pb.items) g small) refl few
          (λ g.
            let some_message : ltb 0 (length messages) ≡ true = ground arith in
            subst
              (λ (b : Bool).
                Returns (λ r k. r ≡ some (messages ++ (none ∷ [])))
                  (grown cfg (if b then some messages else none) (length messages) 1 g))
              (sym some_message) (grown-Rich rich messages 1 g few)))

-- The numbers of items and of messages stay below 2 ^ 32.
pub record IsCountable (pbs : List PbListing) (pb : PbListing) : Type 0 where
  pub items : length (all_items pbs) + length pb.items < 2 ^ 32
  pub messages : length pbs + 1 < 2 ^ 32

-- An allocator that always has memory, an operation whose response is that of the messages so far, and
-- one more message, which the generated unpacker can read and whose items lie in their blocks, with
-- all counts below 2 ^ 32: the decoder of a streamed listing returns success, with the response of all
-- these messages, in order, and with the flag of the last.
pub decode-listed :
    {D : Type 0} (unpack : List ℕ → Option PbListing) (rop : Operation D Listing)
    {pbs : List PbListing} {pb : PbListing} (pbresp : PbMessage) {bytes : List ℕ} (done : Bool)
    (h : Heap)
    → IsRich (get_config rop)
    → rop.response ≡ listed pbs
    → payload pbresp ≡ some bytes
    → unpack bytes ≡ some pb
    → IsWhole pb.items
    → IsCountable pbs pb
    → Returns
        (λ r g. r ≡ result eriak_ok (listed (pbs ++ (pb ∷ []))) (done_of pb))
        (decode unpack rop (some pbresp) done h)
unfolding decode
decode-listed unpack rop {pbs} {pb} pbresp done h rich so_far read unpacked whole small =
    rw (read, unpacked, decode)
      (subst
        (λ r.
          Returns (λ r' g. r' ≡ result eriak_ok (listed (pbs ++ (pb ∷ []))) (done_of pb))
            (start_or_continue (get_config rop) r pb done h))
        (sym so_far) (go pbs small))
  where
    go :
        (qs : List PbListing)
        → IsCountable qs pb
        → Returns
            (λ r g. r ≡ result eriak_ok (listed (qs ++ (pb ∷ []))) (done_of pb))
            (start_or_continue (get_config rop) (listed qs) pb done h)
    go [] fits = start-Rich rich pb whole done h (omega (arith, fits.items))
    go (q ∷ qs) fits =
        continue-Rich rich pb whole q qs done h
          (omega (arith, fits.items, length-map (λ item. some (copy_of item)) (all_items (q ∷ qs))))
          (omega (arith, fits.messages, length-map (λ p. some p) (q ∷ qs)))
