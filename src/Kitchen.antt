-- ===== src/Kitchen.antt =====
-- The kitchen simulations of assignments/hw5: the thread model, the four programs, their theorems.
pub mod Threads
pub mod Held
pub mod Tails
pub mod Progress
pub mod Finish
pub mod Exclusive
pub mod Schedule
pub mod Original
pub mod Ordered
pub mod Global
pub mod TakeAll
mod Tests
