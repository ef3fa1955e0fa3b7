-- ===== src/Windows/Moves.antt =====
-- windows/main.c: the balances of sockets and of receivers, which the Linux client keeps, through the
-- operations of the Windows client, and after any number of its steps.
pub mod Board
pub mod Change
pub mod Runs
pub mod Steps
