-- ===== src/Wire.antt =====
-- The wire format of src/riak.c: a message is the length of what follows in four bytes, most
-- significant first, then the code of the message, then its data.
pub mod Header
pub mod Read
pub mod Write
pub mod Body
pub mod Frame
pub mod Message
pub mod Decode
pub mod Send
pub mod Stream
pub mod Tests
