-- ===== src/Messages/Index/Keys.antt =====
-- The keys that the loop of src/messages/riak_2i.c copies from all messages of a response.
use mathlib.Core.Path.{subst}
use riak_c_client.Base.{
  ℕ, suc, ◌+◌, ◌^◌, ◌<◌, ◌≡◌, ◌≢◌, refl, ap, sym, ◌∙◌, true, false, Option, some, List, [], ◌∷◌,
  ◌++◌, map, length, arith, total, get_elem?, add32, append_assoc, length-append,
}
use riak_c_client.Memory.{Heap, Config}
use riak_c_client.Memory.Returns.{Returns, returns}
use riak_c_client.Memory.Rich.{IsRich, bind_known}
use riak_c_client.Binary.{Binary, PbBinary, shallow}
use riak_c_client.Messages.Get.Fetched.{from_pb-Rich}
use riak_c_client.Base.{map-append, next_int-small}
use riak_c_client.Messages.Index.Reply.{PbIndexResp, sum_of, goes_on, copy_keys}

-- The keys of all messages, in order.
abbrev pub all_keys : List PbIndexResp → List PbBinary
all_keys [] = []
all_keys (pb ∷ pbs) = pb.keys ++ all_keys pbs

-- A copy, which shares the bytes of the message.
abbrev pub shared_key : PbBinary → Option Binary
shared_key key = some (shallow key.len key.data_block)

abbrev pub present : List PbIndexResp → List (Option PbIndexResp)
present pbs = map (λ pb. some pb) pbs

-- Every message has a key.
abbrev pub HaveKeys : List PbIndexResp → Type 0
HaveKeys [] = Unit {0}
HaveKeys (pb ∷ pbs) = (pb.keys ≢ []) × HaveKeys pbs

pub sum_of-total :
    (size : PbIndexResp → ℕ) (i : ℕ) (pbs : List PbIndexResp) (acc : ℕ)
    → i + length pbs < 2 ^ 31
    → acc + total size pbs < 2 ^ 32
    → sum_of size i (present pbs) acc ≡ some (acc + total size pbs)
unfolding sum_of
sum_of-total size i [] acc few small = ap some (omega arith)
sum_of-total size i (pb ∷ pbs) acc few small =
    let step : add32 acc (size pb) ≡ acc + size pb = omega arith in
    rw (next_int-small i (omega arith), step, sum_of)
      (sum_of-total size (suc i) pbs (acc + size pb) (omega arith) (omega arith)
        ∙ ap some (omega arith))

pub length-all_keys :
    (pbs : List PbIndexResp) → length (all_keys pbs) ≡ total (λ pb. length pb.keys) pbs
length-all_keys [] = refl
length-all_keys (pb ∷ pbs) =
    omega (arith, length-append pb.keys (all_keys pbs), length-all_keys pbs)

get_elem?-length :
    {A : Type 0} (before : List A) (x : A) (after : List A)
    → get_elem? (before ++ (x ∷ after)) (length before) ≡ some x
get_elem?-length [] x after = refl
get_elem?-length (y ∷ before) x after = get_elem?-length before x after

module _ {cfg : Config} (rich : IsRich cfg) where
  none_Rich : (i : ℕ) (h : Heap) → Returns (λ r g. r ≡ some []) (copy_keys cfg 0 i 0 [] h)
  unfolding copy_keys
  none_Rich i h = returns refl

  module _ (pb : PbIndexResp) (pbs : List (Option PbIndexResp)) (left i j : ℕ) {key : PbBinary}
      {later : List (Option Binary)} (h : Heap) (at : get_elem? pb.keys j ≡ some key)
      (small : suc i < 2 ^ 31) where
    -- A round of the loop within a message, and at its end.
    round_within :
        goes_on j pb ≡ true
        → ((g : Heap)
            → Returns
                (λ r k. r ≡ some later)
                (copy_keys cfg left (suc i) (suc j) (some pb ∷ pbs) g))
        → Returns
            (λ r g. r ≡ some (shared_key key ∷ later))
            (copy_keys cfg (suc left) i j (some pb ∷ pbs) h)
    unfolding copy_keys
    round_within on rest =
        rw (at, copy_keys)
          (bind_known _ (from_pb-Rich rich key h)
            λ g. rw (next_int-small i small, on) (bind_known _ (rest g) λ k. returns refl))

    round_last :
        goes_on j pb ≡ false
        → ((g : Heap) → Returns (λ r k. r ≡ some later) (copy_keys cfg left (suc i) 0 pbs g))
        → Returns
            (λ r g. r ≡ some (shared_key key ∷ later))
            (copy_keys cfg (suc left) i j (some pb ∷ pbs) h)
    unfolding copy_keys
    round_last off rest =
        rw (at, copy_keys)
          (bind_known _ (from_pb-Rich rich key h)
            λ g. rw (next_int-small i small, off) (bind_known _ (rest g) λ k. returns refl))

  -- The keys from one on in its message, and those of the other messages.
  message_keys-Rich :
      (pb : PbIndexResp) (before after : List PbBinary) (key : PbBinary)
      (pbs : List (Option PbIndexResp)) (left i : ℕ) (later : List (Option Binary)) (h : Heap)
      → pb.keys ≡ before ++ (key ∷ after)
      → i + suc (length after) < 2 ^ 31
      → ((g : Heap)
          → Returns (λ r k. r ≡ some later) (copy_keys cfg left (i + suc (length after)) 0 pbs g))
      → Returns
          (λ r g. r ≡ some (map shared_key (key ∷ after) ++ later))
          (copy_keys cfg (suc (length after + left)) i (length before) (some pb ∷ pbs) h)
  message_keys-Rich pb before [] key pbs left i later h held small rest =
      let none_left : 0 + left ≡ left = omega arith in
      let one : i + 1 ≡ suc i = omega arith in
      rw none_left (
        round_last pb pbs left i (length before) h
          (ap (λ xs. get_elem? xs (length before)) held ∙ get_elem?-length before key [])
          (omega (arith, one, small))
          (ground (arith, ap length held, length-append before (key ∷ [])))
          (subst (λ n. (g : Heap) → Returns (λ r k. r ≡ some later) (copy_keys cfg left n 0 pbs g))
            one rest))
  message_keys-Rich pb before (next ∷ after) key pbs left i later h held small rest =
      let count : suc (length after) + left ≡ suc (length after + left) = omega arith in
      let place : length (before ++ (key ∷ [])) ≡ suc (length before) =
        omega (arith, length-append before (key ∷ [])) in
      let moved : i + suc (suc (length after)) ≡ suc i + suc (length after) = omega arith in
      rw count (
        round_within pb pbs (suc (length after + left)) i (length before) h
          (ap (λ xs. get_elem? xs (length before)) held
            ∙ get_elem?-length before key (next ∷ after))
          (omega (arith, small))
          (ground (arith, ap length held, length-append before (key ∷ next ∷ after)))
          λ g.
            subst
              (λ j.
                Returns (λ r k. r ≡ some (map shared_key (next ∷ after) ++ later))
                  (copy_keys cfg (suc (length after + left)) (suc i) j (some pb ∷ pbs) g))
              place
              (message_keys-Rich pb (before ++ (key ∷ [])) after next pbs left (suc i) later g
                (held ∙ sym (append_assoc before (key ∷ []) (next ∷ after))) (omega (arith, small))
                (subst
                  (λ n. (k : Heap) → Returns (λ r l. r ≡ some later) (copy_keys cfg left n 0 pbs k))
                  moved rest)))

  first_keys-Rich :
      (pb : PbIndexResp) (pbs : List PbIndexResp) (ks : List PbBinary) (i : ℕ) (h : Heap)
      → pb.keys ≢ []
      → pb.keys ≡ ks
      → i + length (all_keys (pb ∷ pbs)) < 2 ^ 31
      → ((g : Heap)
          → Returns
              (λ r k. r ≡ some (map shared_key (all_keys pbs)))
              (copy_keys cfg (length (all_keys pbs)) (i + length pb.keys) 0 (present pbs) g))
      → Returns
          (λ r g. r ≡ some (map shared_key (pb.keys ++ all_keys pbs)))
          (copy_keys cfg (length (pb.keys ++ all_keys pbs)) i 0 (some pb ∷ present pbs) h)
  first_keys-Rich pb pbs [] i h some_key held small rest = absurd (some_key held)
  first_keys-Rich pb pbs (key ∷ after) i h some_key held small rest =
      let size : length pb.keys ≡ suc (length after) = ap length held in
      let count : length (pb.keys ++ all_keys pbs) ≡ suc (length after + length (all_keys pbs)) =
        omega (arith, length-append pb.keys (all_keys pbs), size) in
      let split : map shared_key (pb.keys ++ all_keys pbs)
          ≡ map shared_key (key ∷ after) ++ map shared_key (all_keys pbs) =
        ap (λ ks. map shared_key (ks ++ all_keys pbs)) held
        ∙ map-append shared_key (key ∷ after) (all_keys pbs) in
      let later : List (Option Binary) = map shared_key (all_keys pbs) in
      rw (count, split)
        (message_keys-Rich pb [] after key (present pbs) (length (all_keys pbs)) i later h held
          (omega (arith, small, count))
          (subst
            (λ n.
              (g : Heap)
              → Returns (λ r k. r ≡ some later)
                  (copy_keys cfg (length (all_keys pbs)) (i + n) 0 (present pbs) g))
            size rest))

  keys_from-Rich :
      (pbs : List PbIndexResp) (i : ℕ) (h : Heap)
      → HaveKeys pbs
      → i + length (all_keys pbs) < 2 ^ 31
      → Returns
          (λ r g. r ≡ some (map shared_key (all_keys pbs)))
          (copy_keys cfg (length (all_keys pbs)) i 0 (present pbs) h)
  keys_from-Rich [] i h keys small = none_Rich i h
  keys_from-Rich (pb ∷ pbs) i h (some_key, keys) small =
      first_keys-Rich pb pbs pb.keys i h some_key refl small λ g.
        keys_from-Rich pbs (i + length pb.keys) g keys
          (omega (arith, length-append pb.keys (all_keys pbs)))

  -- All keys.
  pub copy_keys-Rich :
      (pbs : List PbIndexResp) (h : Heap)
      → HaveKeys pbs
      → length (all_keys pbs) < 2 ^ 31
      → Returns
          (λ r g. r ≡ some (map shared_key (all_keys pbs)))
          (copy_keys cfg (length (all_keys pbs)) 0 0 (present pbs) h)
  copy_keys-Rich pbs h keys small = keys_from-Rich pbs 0 h keys (omega arith)
