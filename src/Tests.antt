-- ===== src/Tests.antt =====
-- Concrete databases, and the theorems at work on them.
mod Data
mod Money
mod Ordering
mod Coding
mod Following
mod Settling
mod Completing
mod Labelling
mod Withdrawing
mod Paying
mod Cards
mod Transport
mod Guarding
mod Drafts
mod Posting
mod Running
