-- ===== src/Recognition.antt =====
-- Smile2Unlock/modules/face_recognition.cppm: matching a face against the enrolled users, and the
-- state machine between the face recognizer and the credential provider.
pub mod Features
pub mod Match
pub mod Manager
