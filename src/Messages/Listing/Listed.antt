-- ===== src/Messages/Listing/Listed.antt =====
-- What the response of a streamed listing is after some messages.
use riak_c_client.Base.{
  ◌≡◌, refl, sym, ap, ◌∙◌, Bool, false, Option, none, some, List, [], ◌∷◌, ◌++◌, map, length,
  append_assoc, append-nil, map-append,
}
use riak_c_client.Binary.{Binary, PbBinary}
use riak_c_client.Messages.Listing.{PbListing, Listing, done_of}
use riak_c_client.Messages.Listing.Items.{copy_of}

-- The items of all messages, in order.
abbrev pub all_items : List PbListing → List PbBinary
all_items [] = []
all_items (pb ∷ pbs) = pb.items ++ all_items pbs

abbrev pub last_done : List PbListing → Bool
last_done [] = false
last_done (pb ∷ []) = done_of pb
last_done (pb ∷ pb' ∷ pbs) = last_done (pb' ∷ pbs)

-- The cells of the two vectors.
abbrev pub item_cells : List PbListing → List (Option Binary)
item_cells pbs = map (λ item. some (copy_of item)) (all_items pbs)

abbrev pub message_cells : List PbListing → List (Option PbListing)
message_cells pbs = map (λ pb. some pb) pbs

-- The response that the messages make up.
abbrev pub listing_of : List PbListing → Listing
listing_of pbs = record {
  n_items = length (item_cells pbs);
  items = some (item_cells pbs);
  done = last_done pbs;
  n_responses = length (message_cells pbs);
  internal = some (message_cells pbs);
}

-- What the pointer to the response is worth after these messages.
abbrev pub listed : List PbListing → Option Listing
listed [] = none
listed (pb ∷ pbs) = some (listing_of (pb ∷ pbs))

pub all_items-append :
    (pbs : List PbListing) (pb : PbListing)
    → all_items (pbs ++ (pb ∷ [])) ≡ all_items pbs ++ pb.items
all_items-append [] pb = append-nil pb.items
all_items-append (p ∷ pbs) pb =
    ap (λ xs. p.items ++ xs) (all_items-append pbs pb)
    ∙ sym (append_assoc p.items (all_items pbs) pb.items)

pub item_cells-append :
    (pbs : List PbListing) (pb : PbListing)
    → item_cells (pbs ++ (pb ∷ [])) ≡ item_cells pbs ++ map (λ item. some (copy_of item)) pb.items
item_cells-append pbs pb =
    ap (map (λ item. some (copy_of item))) (all_items-append pbs pb)
    ∙ map-append (λ item. some (copy_of item)) (all_items pbs) pb.items

pub last_done-append :
    (pbs : List PbListing) (pb : PbListing) → last_done (pbs ++ (pb ∷ [])) ≡ done_of pb
last_done-append [] pb = refl
last_done-append (p ∷ []) pb = refl
last_done-append (p ∷ p' ∷ pbs) pb = last_done-append (p' ∷ pbs) pb

-- A response by its vectors.
abbrev pub response_of : List (Option Binary) → Bool → List (Option PbListing) → Listing
response_of items done messages = record {
  n_items = length items;
  items = some items;
  done = done;
  n_responses = length messages;
  internal = some messages;
}

pub listed-append :
    (pbs : List PbListing) (pb : PbListing)
    → listed (pbs ++ (pb ∷ []))
      ≡ some (
          response_of
            (item_cells pbs ++ map (λ item. some (copy_of item)) pb.items)
            (done_of pb)
            (message_cells pbs ++ (some pb ∷ [])))
listed-append pbs pb = nonempty pbs ∙ λ i. some (
    response_of (item_cells-append pbs pb i) (last_done-append pbs pb i)
      (map-append (λ p. some p) pbs (pb ∷ []) i))
  where
    nonempty :
        (qs : List PbListing) → listed (qs ++ (pb ∷ [])) ≡ some (listing_of (qs ++ (pb ∷ [])))
    nonempty [] = refl
    nonempty (q ∷ qs) = refl
