-- ===== src/Capture.antt =====
-- A single picture through shared memory: the recognizer process fills the mapping that the service
-- made (common/models/shared_frame_ipc.h), and the service reads it when the process has ended. A
-- preview goes through such a mapping too, while the process runs.
pub mod Frame
pub mod Writer
pub mod Reader
pub mod Agreement
pub mod Preview
pub mod Stream
