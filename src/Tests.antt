-- ===== src/Tests.antt =====
-- Runs of the model on concrete input: `Data` has the input, the other modules the runs, by component.
pub mod Data
pub mod Forge
pub mod Read
pub mod Volume
pub mod Follow
pub mod Push
pub mod Store
pub mod Stage
pub mod Work
pub mod Tree
pub mod Node
