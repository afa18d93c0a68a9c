-- ===== src/Codec.antt =====
-- codec: payloads between their JSON form and the messages of the controller.
pub mod Bytes
pub mod Flags
pub mod Libraries
pub mod Keys
pub mod Walk
pub mod Units
pub mod Values
pub mod Encode
pub mod Decode
pub mod Lookup
pub mod Payloads
pub mod Wire
