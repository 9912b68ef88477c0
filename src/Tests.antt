-- ===== src/Tests.antt =====
-- Concrete runs of the modelled services, and the theorems at concrete inputs.
pub mod Sample
pub mod Economy
pub mod Reactions
pub mod Membership
pub mod Relations
pub mod Session
pub mod Access
pub mod Progression
pub mod Chat
pub mod Outbox
pub mod Dice
pub mod Codes
pub mod Invites
