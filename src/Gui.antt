-- ===== src/Gui.antt =====
-- The link between the user interface and the service process: a request and a response structure
-- over a named pipe (common/models/gui_ipc_protocol.h, Smile2Unlock/backend).
pub mod Float
pub mod Models
pub mod Protocol
pub mod Lines
pub mod Backend
pub mod Handler
pub mod Server
pub mod Remote
