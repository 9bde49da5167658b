-- ===== src/Pubsub.antt =====
-- src/pubsub: the frames of messages, the registry of channels and patterns, and the mailboxes.
pub mod Frame
pub mod Slot
pub mod Registry
