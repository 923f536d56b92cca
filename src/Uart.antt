-- ===== src/Uart.antt =====
-- The serial command protocol of linux/uart_communicate_protocol.
pub mod Block
pub mod Packet
pub mod Pair
pub mod State
pub mod Command
pub mod Decode
pub mod Main
pub mod Read
pub mod Receive
pub mod Send
mod Sample
mod Tests
