-- ===== src/Tests.antt =====
-- Tests of the definitions, and the properties applied to concrete inputs.
mod Fixtures
mod Udp
mod Gui
mod Recognition
mod Recognizer
mod Session
mod Credential
mod Tile
mod Preview
