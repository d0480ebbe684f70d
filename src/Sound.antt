-- ===== src/Sound.antt =====
-- sound/src: the words that the driver of the sound device writes and reads, and its buffers.
pub mod Access
pub mod Verbs
pub mod Commands
pub mod Decode
pub mod Controls
pub mod Responses
pub mod ConnList
pub mod Indexes
pub mod Buffers
pub mod Format
pub mod FormatLaws
pub mod Registers
pub mod Rings
pub mod RingLaws
mod Tests
