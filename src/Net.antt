-- ===== src/Net.antt =====
-- Addresses and options of sockets (.mooncakes/moonbitlang/async/src/socket/socket.c), on Linux.
pub mod Address
pub mod AddressList
pub mod Socket
pub mod Interfaces
