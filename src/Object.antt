-- ===== src/Object.antt =====
-- src/riak_object.c: key-value pairs, links and objects, and their copies to and from the types of
-- Protocol Buffers.
pub mod Types
pub mod Copy
pub mod Pairs
pub mod Links
pub mod Content
pub mod Compare
pub mod Fields
pub mod Rows
pub mod Grow
pub mod Grown
pub mod Pointed
pub mod RoundTrip
pub mod Loops
pub mod View
pub mod Sent
pub mod ReadBack
pub mod Restored
pub mod Unset
mod Tests
