-- ===== src/Tests.antt =====
-- Concrete runs of the modelled code, at which the theorems with hypotheses are applied.
mod Filter
mod Rings
mod Stores
mod Buckets
mod Served
mod Servers
mod Registries
mod Caches
mod Flights
mod Pickers
mod Groups
mod Workers
