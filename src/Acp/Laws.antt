-- ===== src/Acp/Laws.antt =====
-- What the ACP worker keeps true over every sequence of inputs.
pub mod Kept
pub mod Asks
pub mod Run
pub mod Stored
pub mod Consistent
pub mod Prompts
pub mod Once
pub mod Parts
pub mod Decisions
pub mod Answered
pub mod Requests
pub mod Told
