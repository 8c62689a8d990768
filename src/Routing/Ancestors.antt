-- ===== src/Routing/Ancestors.antt =====
-- The walk of `ancestor_group_ids` ends, and finds exactly the groups above the given one.
mod Rounds
mod Termination
pub mod Closure
