-- ===== src/Passes.antt =====
-- The passes on a function of the bitcode: lib/Transforms/CustomPasses.cpp.
pub mod Function
pub mod Uses
pub mod Inline
pub mod Reaches
pub mod Ends
pub mod Scanned
pub mod Valid
pub mod Marking
pub mod Safety
