-- ===== src/Examples.antt =====
-- Tests of the model on inputs that can be followed in the source, and each theorem at a concrete
-- input.
mod Book
mod Fills
mod Contests
mod Fleet
mod Jobs
mod Requests
pub mod Floats
mod Gate
mod Wire
mod Ranked
mod Random
mod Windows
mod Requested
mod Closed
mod Sandboxes
