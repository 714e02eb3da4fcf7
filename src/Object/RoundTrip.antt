-- ===== src/Object/RoundTrip.antt =====
-- What the copies of src/riak_object.c to Protocol Buffers and back keep, for pairs.
use mathlib.Core.Path.{subst}
use riak_c_client.Base.{
  ℕ, zero, suc, ◌≡◌, refl, sym, ap, ◌∙◌, Bool, true, false, Option, none, some, List, arith, length,
  take,
}
use riak_c_client.Memory.{Heap, Cmd, pure, ◌>>=◌, Config}
use riak_c_client.Memory.Returns
use riak_c_client.Memory.Returns.{
  Returns, returns, Moved, Allocated, config_clean_allocate-Returns, config_allocate-Returns,
}
use riak_c_client.Binary.{
  Binary, shallow, true_len, sizeof_binary, PbBinary, cells, copy_from_pb, copy_to_pb,
}
use riak_c_client.Binary.Order.{bytes}
use riak_c_client.Object.Types.{Flagged, Pair, PbPair, sizeof_pair}
use riak_c_client.Object.Copy.{flagged_from_pb, copy_array}
use riak_c_client.Object.Pairs.{
  pair_to_pb, pairs_copy_to_pb, pairs_copy_from_pb, pairs_copy_array_from_pb,
}
use riak_c_client.Object.Rows.{
  Every, no_entry, entry, Rows, no_row, row, OrNull, copy_array-Returns,
}
use riak_c_client.Object.Pointed.{IsComplete, IsPb, pair_to_pb-Returns}

-- The two binaries have the same bytes.
abbrev SameBytes : Option Binary → Option Binary → Type 0
SameBytes from to =
    (a : Binary) × (b : Binary) × (from ≡ some a) × (to ≡ some b) × (bytes b ≡ bytes a)

-- The copy has the bytes of the key, the flag, and the bytes of the value where there is one.
record IsSame (pair : Pair) (copy : Pair) : Type 0 where
  keys : SameBytes pair.key copy.key
  flags : copy.val.has ≡ pair.val.has
  values : pair.val.has ≡ true → SameBytes pair.val.content copy.val.content

-- The bytes that a field of a message stands for.
abbrev pb_bytes : PbBinary → List ℕ
pb_bytes pb = take pb.len (cells pb.data_block)

pb_bytes-copy_to_pb : (a : Binary) → pb_bytes (copy_to_pb a) ≡ bytes a
unfolding copy_to_pb
pb_bytes-copy_to_pb a = refl

pub take-true_len :
    (n : ℕ) (block : Option (List ℕ)) → take (true_len n block) (cells block) ≡ take n (cells block)
take-true_len zero none = refl
take-true_len (suc n) none = refl
take-true_len n (some block) = refl

copy_from_pb-Returns :
    (cfg : Config) (pb : PbBinary) (h : Heap)
    → Returns (λ r g. OrNull (λ c. bytes c ≡ pb_bytes pb) r) (copy_from_pb cfg pb h)
unfolding copy_from_pb
copy_from_pb-Returns cfg pb h =
    Returns.bind (config_allocate-Returns (some cfg) sizeof_binary h) answer
  where
    answer :
        (got : Bool) (g : Heap)
        → Allocated h got g
        → Returns
            (λ r k. OrNull (λ c. bytes c ≡ pb_bytes pb) r)
            ((elim got as (λ _. Cmd (Option Binary)) [
              | true ↦ pure (some (shallow pb.len pb.data_block))
              | false ↦ pure none
            ])
              g)
    answer true g p = returns (take-true_len pb.len pb.data_block)
    answer false g p = returns tt

-- A flagged field read back.
abbrev IsRead : Flagged PbBinary → Flagged (Option Binary) → Type 0
IsRead from to =
    (to.has ≡ from.has)
    × (from.has ≡ true → (b : Binary) × (to.content ≡ some b) × (bytes b ≡ pb_bytes from.content))

flag_from_pb-Returns :
    (cfg : Config) (flag : Bool) (pb : PbBinary) (h : Heap)
    → Returns
        (λ r g. OrNull (IsRead (record { has = flag; content = pb })) r)
        (flagged_from_pb cfg (record { has = flag; content = pb }) h)
unfolding flagged_from_pb
flag_from_pb-Returns cfg true pb h = Returns.bind (copy_from_pb-Returns cfg pb h) answer
  where
    answer :
        (r : Option Binary) (g : Heap)
        → OrNull (λ c. bytes c ≡ pb_bytes pb) r
        → Returns
            (λ r k. OrNull (IsRead (record { has = true; content = pb })) r)
            ((elim r as (λ _. Cmd (Option (Flagged (Option Binary)))) [
              | none ↦ pure none
              | some x ↦ pure (some (record { has = true; content = some x }))
            ])
              g)
    answer none g p = returns tt
    answer (some b) g p = returns (refl, λ _. (b, refl, p))
flag_from_pb-Returns cfg false pb h = returns (refl, λ on. ground (arith, on))

flagged_from_pb-Returns :
    (cfg : Config) (from : Flagged PbBinary) (h : Heap)
    → Returns (λ r g. OrNull (IsRead from) r) (flagged_from_pb cfg from h)
flagged_from_pb-Returns cfg from h = flag_from_pb-Returns cfg from.has from.content h

pairs_copy_from_pb-Returns :
    (cfg : Config) (pair : Pair) (pb : PbPair)
    → IsPb pair pb
    → (h : Heap) → Returns (λ r g. OrNull (IsSame pair) r) (pairs_copy_from_pb cfg pb h)
unfolding pairs_copy_from_pb
pairs_copy_from_pb-Returns cfg pair pb is h =
    Returns.bind (config_clean_allocate-Returns (some cfg) sizeof_pair h) filled
  where
    with_value :
        (b : Binary)
        → SameBytes pair.key (some b)
        → (r : Option (Flagged (Option Binary))) (g : Heap) → OrNull (IsRead pb.val) r
        → Returns
            (λ r k. OrNull (IsSame pair) r)
            ((elim r as (λ _. Cmd (Option Pair)) [
              | none ↦ pure none
              | some val ↦ pure (some (record { key = some b; val = val }))
            ])
              g)
    with_value b key none g p = returns tt
    with_value b key (some val) g (flag, read) = returns (record {
      keys = key;
      flags = flag ∙ is.pb_flag;
      values = λ on.
          let (a, held, to) = is.pb_value on in
          let (c, got, same) = read (is.pb_flag ∙ on) in
          (a, c, held, got, same ∙ ap pb_bytes to ∙ pb_bytes-copy_to_pb a);
    })

    with_key :
        (r : Option Binary) (g : Heap)
        → OrNull (λ c. bytes c ≡ pb_bytes pb.key) r
        → Returns
            (λ r k. OrNull (IsSame pair) r)
            ((elim r as (λ _. Cmd (Option Pair)) [
              | none ↦ pure none
              | some key ↦ do
                v ← flagged_from_pb cfg pb.val
                elim v [
                  | none ↦ pure none
                  | some val ↦ pure (some (record { key = some key; val = val }))
                ]
            ])
              g)
    with_key none g p = returns tt
    with_key (some b) g p =
        let (a, held, to) = is.pb_key in
        Returns.bind (flagged_from_pb-Returns cfg pb.val g)
          (with_value b (a, b, held, refl, p ∙ ap pb_bytes to ∙ pb_bytes-copy_to_pb a))

    filled :
        (got : Bool) (g : Heap)
        → Allocated h got g
        → Returns
            (λ r k. OrNull (IsSame pair) r)
            ((elim got as (λ _. Cmd (Option Pair)) [
              | false ↦ pure none
              | true ↦ do
                k ← copy_from_pb cfg pb.key
                elim k [
                  | none ↦ pure none
                  | some key ↦ do
                    v ← flagged_from_pb cfg pb.val
                    elim v [
                      | none ↦ pure none
                      | some val ↦ pure (some (record { key = some key; val = val }))
                    ]
                ]
            ])
              g)
    filled false g p = returns tt
    filled true g p = Returns.bind (copy_from_pb-Returns cfg pb.key g) with_key

-- The copies of an array of pairs to a message and back.
abbrev there_and_back : Config → List Pair → Cmd (Option (List Pair))
there_and_back cfg pairs = do
  pb ← pairs_copy_to_pb cfg pairs (length pairs)
  elim pb [ none ↦ pure none | some ps ↦ pairs_copy_array_from_pb cfg ps (length ps) ]

each_itself : {V : Pair → Type 0} {xs : List Pair} → Every V xs → Rows (λ o x. (o ≡ x) × V x) xs xs
each_itself no_entry = no_row
each_itself (entry v valid) = row (refl, v) (each_itself valid)

-- An array of complete pairs, copied to an array of a message and from it to an array of pairs: the
-- copies never fault; they end without memory, or with as many pairs in the same order, of the same
-- keys, flags and values.
there_and_back-IsSame :
    (cfg : Config) {pairs : List Pair}
    → Every IsComplete pairs
    → (h : Heap) → Returns (λ r g. OrNull (Rows IsSame pairs) r) (there_and_back cfg pairs h)
unfolding pairs_copy_to_pb pairs_copy_array_from_pb
there_and_back-IsSame cfg {pairs} complete h =
    Returns.bind (copy_array-Returns to_pb cfg (each_itself complete) h) back
  where
    to_pb :
        (o x : Pair)
        → (o ≡ x) × IsComplete x
        → (h : Heap) → Returns (λ r g. OrNull (IsPb o) r) (pair_to_pb cfg x h)
    to_pb o x (e, v) h =
        subst (λ o. Returns (λ r g. OrNull (IsPb o) r) (pair_to_pb cfg x h)) (sym e)
          (pair_to_pb-Returns cfg x v h)

    back :
        (r : Option (List PbPair)) (g : Heap)
        → OrNull (Rows IsPb pairs) r
        → Returns
            (λ r g. OrNull (Rows IsSame pairs) r)
            ((elim r as (λ _. Cmd (Option (List Pair))) [
              | none ↦ pure none
              | some ps ↦ copy_array cfg (pairs_copy_from_pb cfg) (length ps) ps
            ])
              g)
    back none g rows = returns tt
    back (some ps) g rows = copy_array-Returns (pairs_copy_from_pb-Returns cfg) cfg rows g
