-- ===== src/Streaming.antt =====
-- The sentence streamer (python/tom/voice/sentence_streamer.py), which cuts the text of a model into
-- pieces that can be spoken.
pub mod Text
pub mod Boundaries
pub mod Streamer
pub mod Loop
pub mod Content
pub mod Spoken
pub mod Pieces
mod Examples
