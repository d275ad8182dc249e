-- ===== src/Mm.antt =====
-- The parts of microkernel/src/mm that are modelled.
pub mod PhysBitmap
pub mod TableWalk
