-- ===== src/Rings.antt =====
-- The ring buffers of the Go packages under internal, in which the server keeps its samples and its
-- messages. Locks are left out: the calls run one after another.
pub mod Slots
pub mod Turn
pub mod WaitRing
pub mod LogRing
pub mod SampleRing
mod Tests
