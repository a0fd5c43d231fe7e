-- ===== src/Channel.antt =====
-- The chunked transport of src/pipe/queues.py: `_OutputChannel` and `_InputChannel`.
pub mod Input
pub mod Iterator
pub mod Output
mod Tests
