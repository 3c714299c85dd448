-- ===== src/Credential/Receiver.antt =====
-- The receiver of common/managers/ipc/udp/udp_receiver.h, which keeps the last report in global
-- variables. GetTickCount64 is an argument of each round.
use smile2unlock_v.Base.{
  ℕ, ◌<◌, ◌≡◌, refl, List, [], ◌∷◌, Bool, true, false, not, Option, none, some, arith, ◌==◌, ==_iff,
  if◌then◌else◌, Bool-cases, length, drop, length-drop, inl, inr,
}
use smile2unlock_v.Base.Text.{Bytes, is_empty, c_string}
use smile2unlock_v.Udp.Packets.{
  RecognitionStatus, status_of, status_magic, status_version, UdpStatusPacket,
}
use smile2unlock_v.Udp.Layout.Status.{status_view, status_packet_size, status_username_offset}
use smile2unlock_v.Udp.Loop.{
  Step, skip, deliver, fault, Received, aborted, bad_descriptor, failed, datagram,
}
use smile2unlock_v.Udp.Status.{StatusReport, reported_feature, receive_status}

-- The global variables.
pub record LastReport : Type 0 where
  pub face_recognition_status : RecognitionStatus
  pub face_recognition_status_tick : ℕ
  pub recognized_username : Bytes
  pub recognized_session_id : ℕ
  pub recognized_feature : Bytes

-- `packet.username[0] != '\0'`, of the bytes from there on.
username_given : Bytes → Bool
username_given [] = false
username_given (x ∷ xs) = not (x == 0)

stored_as : ℕ → UdpStatusPacket → (username : Bytes) → LastReport → LastReport
stored_as tick p username g = record {
  face_recognition_status = status_of p.status;
  face_recognition_status_tick = tick;
  recognized_username = username;
  recognized_session_id = p.session_id;
  recognized_feature = reported_feature p.feature_bytes p.feature;
}

with_name : ℕ → UdpStatusPacket → Option Bytes → LastReport → Option LastReport
unfolding stored_as
with_name tick p none g = none
with_name tick p (some username) g = some (stored_as tick p username g)

-- One datagram; `none` is a read outside of the packet, in the name.
unfoldable pub store_report : ℕ → Bytes → LastReport → Option LastReport
unfolding with_name username_given
store_report tick bs g =
    let p = status_view bs in
    let name = drop status_username_offset bs in
    if not (length bs == status_packet_size)
    then some g
    else if not (p.magic_number == status_magic)
    then some g
    else if not (p.version == status_version)
    then some g
    else if username_given name
    then with_name tick p (c_string name) g
    else some (stored_as tick p g.recognized_username g)

-- The rounds of the loop: `running_`, the tick, and what `receive_from` brings.
unfoldable pub receiver_loop : List (Bool × ℕ × Received) → LastReport → Option LastReport
receiver_loop [] g = some g
receiver_loop ((false, tick, r) ∷ rest) g = some g
receiver_loop ((true, tick, aborted) ∷ rest) g = some g
receiver_loop ((true, tick, bad_descriptor) ∷ rest) g = some g
receiver_loop ((true, tick, failed) ∷ rest) g = receiver_loop rest g
receiver_loop ((true, tick, datagram bs) ∷ rest) g = elim (store_report tick bs g) [
  | none ↦ none
  | some g' ↦ receiver_loop rest g'
]

-- What a report makes of the variables: an empty name leaves the one before.
unfoldable pub noted : ℕ → Step StatusReport → LastReport → Option LastReport
noted tick skip g = some g
noted tick fault g = none
noted tick (deliver r) g = some (record {
  face_recognition_status = r.status;
  face_recognition_status_tick = tick;
  recognized_username = if is_empty r.username then g.recognized_username else r.username;
  recognized_session_id = r.session_id;
  recognized_feature = r.feature;
})

name_stands :
    (bs : Bytes) → length bs ≡ status_packet_size → 0 < length (drop status_username_offset bs)
name_stands bs e = omega (arith, length-drop status_username_offset bs)

store_named :
    (tick : ℕ) (bs : Bytes) (g : LastReport) (name : Bytes)
    → drop status_username_offset bs ≡ name
    → 0 < length name
    → (rest : Option Bytes) → c_string (drop 1 name) ≡ rest
    → store_report tick bs g ≡ noted tick (receive_status true bs) g
unfolding store_report receive_status noted c_string is_empty stored_as drop
store_named tick bs g [] e h rest r = absurd (omega arith)
store_named tick bs g (x ∷ name) e h none r = ground arith
store_named tick bs g (x ∷ name) e h (some rest) r = ground arith

-- The provider's receiver takes the same datagrams as StatusReceiver of udp_manager.h with a
-- callback, and stores what that one reports, with the tick; of a report without a name it keeps
-- the name before. Foreign datagrams change nothing, and the invalid reads are the same.
pub store_report-receive_status :
    (tick : ℕ) (bs : Bytes) (g : LastReport)
    → store_report tick bs g ≡ noted tick (receive_status true bs) g
unfolding store_report receive_status noted
store_report-receive_status tick bs g = elim (Bool-cases (length bs == status_packet_size)) [
  | inl e ↦
      store_named tick bs g (drop status_username_offset bs) refl
        (name_stands bs ((==_iff (length bs) status_packet_size).0 e))
        (c_string (drop 1 (drop status_username_offset bs))) refl
  | inr e ↦ rw e refl
]
