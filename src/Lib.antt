-- ===== src/Lib.antt =====
-- A model of the Riak C client in a cubical type theory, with the theorems that make it correct.
--
-- The program. A client of the Riak database speaks Protocol Buffers over a socket. Each request is a
-- riak_operation on a riak_connection, which belongs to a riak_config with the user's allocator. A
-- request is encoded to a riak_pb_message, and riak_write puts it on the transport: the length of what
-- follows in four bytes, the code of the message, its data. Each time bytes arrive, the adapter of
-- libevent calls riak_read, which gathers the length and the body over as many calls as they take,
-- hands a whole message to the operation's decoder, and calls the user's callbacks. Names, keys and
-- values are riak_binary strings; results are kept in objects of pairs and links, and in growing arrays.
--
-- The files.
--   Base: lists over the native numbers, blocks of memory, machine words, Boolean tests.
--   Error: src/include/riak_error.h and riak_strerror of src/riak_error.c.
--   Memory: riak_config_allocate and riak_config_clean_allocate of src/riak_config.c and
--     riak_free_internal of src/riak_utils.c, over a heap that counts the blocks taken and given back;
--     Memory/Returns: runs that return, with a postcondition; Memory/Rich: with an allocator that always
--     has memory; Memory/Exact: runs whose numbers of blocks are known; Memory/Settings and Memory/Shared:
--     configurations with their logging, and the allocator of protobuf-c that they share.
--   Utils: src/riak_utils.c; Utils/Growth: its reallocation; Utils/Copy: the strings that riak_strlcpy can copy.
--   Array: src/riak_array.c; Array/Valid: the invariant and the growth; Array/Shift: the two moving
--     loops; Array/Refine: the operations on the list of elements that the array stands for;
--     Array/Create: new arrays; Array/Faults: a read outside the block and a loop without end.
--   Binary: src/riak_binary.c; Binary/Order: comparison; Binary/Blocks: copies and frees;
--     Binary/Print and Binary/Hex: printing.
--   Message: src/riak_messages.c. Connection: the record of src/riak_connection.c.
--     Connection/Open: riak_connection_new and riak_connection_free, with src/riak_network.c;
--     Connection/Lifetime: the names, sockets and addresses of a connection.
--   Operation: src/riak_operation.c; Operation/Lifetime: the blocks that it owns. ServerError: src/messages/riak_server_error.c and
--     riak_server_error_new of src/riak_error.c.
--   Wire: src/riak.c. Wire/Header: the four bytes of a length; Wire/Read: riak_read; Wire/Write:
--     riak_write; Wire/Body: one read of a body; Wire/Frame: a body cut into events; Wire/Message and
--     Wire/Decode: a whole message; Wire/Send: what riak_write sends; Wire/Stream: a response of several
--     messages over read events.
--   Libevent: riak_libevent_result_cb of src/adapters/riak_libevent.h; Libevent/Event: its other functions;
--     Libevent/Lifetime: the buffer event until it is freed.
--   Object: src/riak_object.c. Object/Types: its records; Object/Copy: the steps that its copies repeat;
--     Object/Pairs, Object/Links, Object/Content, Object/Fields, Object/Compare: its operations;
--     Object/Grow and Object/Grown: an entry added to an array of an object; Object/Rows: the loops over
--     arrays; Object/Pointed and Object/RoundTrip: pairs to a message and back, with memory or without;
--     Object/Loops: loops with the blocks they take; Object/View: what an object stands for; Object/Sent,
--     Object/ReadBack and Object/Restored: a whole object to a message, from one, and both with the
--     release; Object/Unset: a read of a NULL pointer.
--   BucketProps: src/riak_bucketprops.c. BucketProps/Types: its records; BucketProps/ModFun, Hooks, Copy,
--     Setters, Quorum: its operations; BucketProps/View: what properties stand for; BucketProps/Sent,
--     ReadBack and RoundTrip: to a message, from one, and both with the
--     release; BucketProps/Plain: a message without hooks and functions; BucketProps/Keyless and
--     BucketProps/Faults: errors.
--   Messages: src/messages. Messages/Request and Messages/Response: the steps that encoders and decoders
--     share; Messages/Ping, ServerInfo, ClientId, ResetBucket, Acknowledgement: the small requests;
--     Messages/Get, Put, Delete: the requests on values, each with the module Options, and the first two
--     with the module Reply; Messages/Get/Fetched: the objects of a get; Messages/Carried and the two
--     modules Sent: what requests carry of their options; Messages/Clock: the blocks of a vector clock;
--     Messages/ListKeys, ListBuckets, Listing: the streamed listings, with Items, Listed, Valid and
--     Streamed: their whole responses; Messages/MapReduce, with Gathered and Whole: a whole response;
--     Messages/GetBucket and SetBucket: the requests on bucket properties; Messages/Index: index queries,
--     with Options, Reply and Decode for src/messages/riak_2i.c; its other modules: what a query carries,
--     and the keys of all messages; Messages/Search, with Options and Reply: src/messages/riak_search.c;
--     Search/Sent, Copied and Decoded: what a search carries, and its response with its blocks.
--   Sync: riak_sync_request of src/riak.c and the calls over it; Sync/Answer: a whole answer in one call of
--     riak_read; Sync/Streamed: several messages in one call; Sync/Call: a whole call; Sync/Packed: its
--     request; Sync/Calls: the calls one by one; Sync/Ping, Sync/ListKeys, Sync/Answered,
--     Sync/Properties: whole calls, and with Faults a request that is not sent.
--   Async: the registrations of src/riak_async.c.
--   The Tests modules hold runs and the theorems at concrete inputs.
--
-- The state. A stateful function is a command on the heap: it ends with a result and the heap after it,
-- faults on an access outside a block, a use of NULL or undefined behaviour, or is out of fuel. A block
-- is the list of its cells, NULL is `none`, a function that changes a record returns the new one. Words
-- of 32 and 64 bits wrap around, and the sign of an int64_t is its top bit. The int that counts the entries of an object,
-- and those of the loops that assemble the responses to index queries and map/reduce, fault beyond INT_MAX. The other loops
-- with an int are taken to stay below it, as those over the entries of one message do: an entry takes two bytes or more,
-- and a message less than 2 ^ 32.
--
-- Fuel. The doubling loop of riak_array_resize gets 65 rounds; a valid array, whose capacity is not 0,
-- needs one doubling for one more element, and the theorems on insert and push say that they return.
-- The loop of riak_read is run on any fuel from 1 on: the theorem on a whole message uses one round for each read event, and those on responses of several messages one round
-- for each message, or two for each event.
--
-- Parameters. The user's allocator, the transport's callbacks, read(2) and write(2), the resolver, socket(2) and
-- connect(2), libevent, the generated packers and unpackers, of which the packer of the request that sets bucket
-- properties may refuse a message without a descriptor, the dispatch of an operation's decoder, and qsort. The
-- host is little-endian, has pointers of 64 bits and the error numbers of Linux.
--
-- Not modelled: logging (src/riak_log.c, and riak_print_host of src/riak_network.c, which only serves it), the
-- formatted printing of src/riak_print.c and the functions over it, and the accessors that only read a field. Sockets
-- that do not block are a choice of the build which is left out. What the generated unpackers allocate is not
-- counted.
pub mod Base
pub mod Error
pub mod Memory
pub mod Utils
pub mod Array
pub mod Binary
pub mod Message
pub mod Connection
pub mod Operation
pub mod ServerError
pub mod Wire
pub mod Libevent
pub mod Object
pub mod BucketProps
pub mod Messages
pub mod Sync
pub mod Async
