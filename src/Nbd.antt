-- ===== src/Nbd.antt =====
-- The NBD client that reads a dirty bitmap (src/datapath/nbd_client.py).
pub mod Bytes
pub mod Socket
pub mod SocketLaws
pub mod Session
pub mod Decoding
pub mod Encoding
pub mod Negotiation
pub mod Refinement
pub mod Options
pub mod Exchange
pub mod Walk
pub mod Coverage
