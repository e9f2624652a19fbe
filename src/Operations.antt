-- ===== src/Operations.antt =====
-- crates/ize-lib/src/operations: opcodes, the queue that buffers them, and the recorder.
pub mod Operation
pub mod Opcode
pub mod Queue
pub mod Recorder
pub mod Dump
mod Tests
