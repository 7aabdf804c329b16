-- ===== src/NativeLink.antt =====
-- plugins/NativeLinkTransport: the authoritative state core of the native transport.
pub mod Types
pub mod Topics
pub mod Events
pub mod Publish
pub mod Sessions
pub mod Calls
