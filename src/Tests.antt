-- ===== src/Tests.antt =====
-- The theorems at concrete inputs, and small runs of the definitions.
mod Vectors
mod Maps
mod Numbers
mod Vanilla
mod Triple
mod Histories
mod Requires
mod Literals
mod Merges
mod Systems
mod Benchmarks
mod Compressed
mod Inputs
mod Libraries
