-- ===== src/Examples.antt =====
-- The programs under examples/: their subscribers, their `main`s, and the test sender.
pub mod Counting
pub mod OrderBook
pub mod Printer
pub mod Totals
pub mod Mains
pub mod UdpSender
