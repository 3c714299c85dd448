-- ===== src/Lib.antt =====
-- Smile2Unlock unlocks Windows with a face. Three processes work together: the credential provider in
-- the logon screen asks for a recognition and for a password, the service (Smile2Unlock) matches faces
-- and keeps the users, and the face recognizer reports what the camera sees. They talk in UDP
-- datagrams (common/managers/ipc/udp), and the settings window talks to the service over a pipe
-- (Smile2Unlock/backend). This library models that core and proves what makes it correct.
--
-- Udp: the packets of common/models and the senders and receivers of udp_manager.h, udp_sender.h and
-- auth_request_sender.h. Udp/Packets has the packets and their enumerations, Udp/Layout their bytes in
-- memory (packed, little endian), Udp/Loop the receive loop that the three receivers share, and
-- Udp/Status, Udp/AuthRequest and Udp/Password a pair of sender and receiver each. A loop is a
-- function of what its rounds find; an invalid read is a result of its own (`fault`).
--
-- Gui: the pipe. Gui/Protocol is common/models/gui_ipc_protocol.h, Gui/Backend the interface
-- ibackend_service.h as a record of methods over a state, Gui/Handler the handler of gui_ipc_handler.h
-- (one function for each command), Gui/Server the rounds of gui_ipc_server.h, and Gui/Remote the
-- client of remote_backend_service.h. Gui/Remote/Refines and Gui/Remote/Calls compose them: the client
-- over the server is the service behind it. Gui/Remote/Preview reads a frame out of the shared mapping
-- that Gui/Handler/Preview makes.
--
-- Recognition: Smile2Unlock/modules/face_recognition.cppm. Recognition/Features compares two features,
-- Recognition/Match finds the user (resolve_recognized_username), and Recognition/Manager is the state
-- that the callbacks change, with Recognition/Manager/Run for a sequence of events.
--
-- Recognizer: FaceRecognizer/src/main.cpp. Recognizer/Hex has the hex digits of the features,
-- Recognizer/Loop the recognition over the frames of the camera (recognizeFace), and Recognizer/Modes
-- the modes of the process and the comparison of two features.
--
-- Capture: a single picture through shared memory (common/models/shared_frame_ipc.h). Capture/Writer
-- is captureImageToSharedMemory of FaceRecognizer/src/main.cpp, Capture/Reader is
-- capture_shared_payload of Smile2Unlock/modules/face_recognition.cppm, and Capture/Agreement composes
-- them. Capture/Preview is the preview stream, streamPreviewToSharedMemory and GetLatestPreviewFrame,
-- over the single
-- writes of the writer, and Capture/Stream starts and stops it.
--
-- Credential: the provider that the logon screen loads (CredentialProvider). Credential/Session is the
-- thread of a recognition session in CSampleCredential.cpp, as a program counter that moves one step
-- at a time between the calls of LogonUI; Credential/Requests has its requests and its wait for the
-- result, Credential/PasswordRequest the password that it fetches from the service, and
-- Credential/Receiver the reports that it reads (common/managers/ipc/udp/udp_receiver.h).
-- Credential/Service launches and ends the service process. Credential/Fields is the tile,
-- Credential/Provider is CSampleProvider.cpp, and Credential/Serialization is GetSerialization, over
-- the account names of Credential/Names and the Kerberos buffer of Credential/Logon (helpers.cpp).
-- Credential/PasswordRequest/Served composes the provider with the service of Recognition.
--
-- Base: byte strings, decimal numbers and lists. A text is the list of its bytes. The numbers are
-- natural; an int is the data type Z of Base/Decimal with its bounds as a hypothesis, and the counters
-- of 32 bits wrap around. There is no fuel but in the printing of a number, where it exceeds the
-- number and so is never used up.
--
-- Parameters: float arithmetic and the text forms of floats (Gui/Float, Recognition/Features), the
-- Windows calls that protect a password, the pipe, the shared mappings of a preview, the start of a
-- process, the calls of Windows that the credential provider makes, and the size of
-- KERB_INTERACTIVE_UNLOCK_LOGON. The database is a record of its reads. Whether an allocation succeeds
-- is an argument.
--
-- Not modelled: sockets, the start of threads and the pipe's creation; the parsing of the recognizer's
-- command line, the messages on the logon screen, the database, the encryption, the configuration and
-- the user interface. The recogniser's used time is a natural number: it would take 2^31 / 10 failed
-- captures to overflow the int. The generation of a session is one too: it would take 2^64 sessions.
pub mod Base
pub mod Udp
pub mod Gui
pub mod Recognition
pub mod Recognizer
pub mod Capture
pub mod Credential
pub mod Tests
