-- ===== src/Tdf.antt =====
-- src/tdf: the tile dataflow graph between the front ends and the Tensix backend.
pub mod Defs
pub mod Chips
pub mod Build
pub mod Fission
pub mod Place
pub mod Orchestrate
pub mod Lower
pub mod Arcs
pub mod Packing
pub mod Routes
pub mod Graph
pub mod Solo
mod Pipeline
mod Split
mod Reading
mod Traced
mod Tables
mod Scans
mod Found
mod Described
mod Classified
mod Divided
mod Routed
mod Chosen
mod Tests
mod Kernel
