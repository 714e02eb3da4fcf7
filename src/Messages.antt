-- ===== src/Messages.antt =====
-- src/messages: the requests that an operation sends and the responses that it reads.
pub mod Request
pub mod Listing
pub mod Get
pub mod Put
pub mod Acknowledgement
pub mod Delete
pub mod Ping
pub mod MapReduce
pub mod Index
pub mod Search
pub mod Clock
pub mod Carried
pub mod Response
pub mod ServerInfo
pub mod ClientId
pub mod ResetBucket
pub mod GetBucket
pub mod SetBucket
mod Tests
pub mod ListKeys
pub mod ListBuckets
