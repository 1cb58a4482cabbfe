-- ===== src/Sketch.antt =====
-- The probabilistic data structures of src/agfast_parts/sketches.c and graph.c.
pub mod Bloom
pub mod Cms
pub mod Cuckoo
pub mod Hll
pub mod SpaceSaving
pub mod Candidates
