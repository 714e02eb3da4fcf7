-- ===== src/BucketProps.antt =====
-- The bucket properties: src/riak_bucketprops.c and src/internal/riak_bucketprops-internal.h, less their
-- printing and the accessors that only read a field.
pub mod Types
pub mod ModFun
pub mod Hooks
pub mod Copy
pub mod Setters
pub mod Quorum
pub mod View
pub mod Sent
pub mod Plain
pub mod ReadBack
pub mod Keyless
pub mod RoundTrip
pub mod Faults
pub mod Tests
