-- ===== src/Tests.antt =====
-- The theorems at concrete inputs, and runs of the definitions.
mod Queues
mod Objects
mod Generations
mod Stores
mod Engines
mod Interleavings
mod Workers
mod Brokers
mod Exchanges
mod Clients
mod Servers
mod Dashboards
