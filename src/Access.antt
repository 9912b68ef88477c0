-- ===== src/Access.antt =====
-- Who may see and do what (src/access/): blocks between users, threads, posting and sanctions.
pub mod Blocks
pub mod Sanctions
pub mod Threads
pub mod Posting
pub mod Agreement
pub mod Sets
pub mod Interactions
