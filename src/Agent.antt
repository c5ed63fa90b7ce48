-- ===== src/Agent.antt =====
-- crates/jkr-agent: the loop between a model and its tools.
pub mod Message
pub mod Tools
pub mod Loop
pub mod Transcript
pub mod Answers
pub mod Success
pub mod Numbered
