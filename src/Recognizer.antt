-- ===== src/Recognizer.antt =====
-- FaceRecognizer/src/main.cpp: the process that looks through the camera.
pub mod Hex
pub mod Loop
pub mod Modes
