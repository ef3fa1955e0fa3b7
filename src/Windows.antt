-- ===== src/Windows.antt =====
-- windows/main.c: the Windows client.
pub mod Board
pub mod Desk
pub mod Flag
pub mod Handlers
pub mod Journal
pub mod Monitor
pub mod Moves
pub mod Outcome
pub mod Pair
pub mod Samples
mod Tests
mod PairTests
pub mod Thread
