-- ===== src/Tests.antt =====
-- The code on concrete inputs: runs of it, and the theorems applied.
mod Queues
mod Threads
mod Interleaving
mod Producers
mod Packets
mod Pipeline
mod Engine
mod Registry
mod Generator
mod Examples
mod Mains
mod Senders
