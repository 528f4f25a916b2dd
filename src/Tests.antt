-- ===== src/Tests.antt =====
-- Tests of the components, each at a concrete input.
mod Codec
mod Data
mod Documents
mod Reads
mod Values
mod Merges
mod Engines
mod Sessions
mod Dialogues
mod Cells
mod Tools
mod Threads
