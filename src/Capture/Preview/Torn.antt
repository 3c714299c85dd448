-- ===== src/Capture/Preview/Torn.antt =====
-- A read of the preview while the writer is copying the next picture.
use smile2unlock_v.Base.{
  ℕ, zero, suc, ◌+◌, ◌^◌, ◌%◌, ◌≤◌, ◌≡◌, refl, [], ◌∷◌, ◌++◌, true, false, some, arith, ◌==◌,
  ==_refl, ap, ◌∙◌, take, drop, length, take-append_left, take_all,
}
use smile2unlock_v.Base.Text.{Bytes}
use native.Mathlib.Nat.{zero-add}
use smile2unlock_v.Capture.Frame.{frame_magic, frame_version}
use smile2unlock_v.Capture.Writer.{Image, write_at, write_image}
use smile2unlock_v.Capture.Preview.{
  Preview, preview_round, latest, get_latest_preview_frame, copy_part, round, is_ready,
}
use smile2unlock_v.Capture.Preview.Reads.{
  shown_of, picture_of, IsWhole, read_readable, holding, round_holding,
}

overwritten :
    (k : ℕ) (new old rest : Bytes)
    → k ≤ length new
    → k ≤ length old
    → take (length old) (take k new ++ drop (length (take k new)) (old ++ rest))
      ≡ take k new ++ drop k old
unfolding take drop
overwritten zero new old rest a b = take-append_left old rest
overwritten (suc k) [] old rest a b = absurd (omega arith)
overwritten (suc k) (x ∷ new) [] rest a b = absurd (omega arith)
overwritten (suc k) (x ∷ new) (y ∷ old) rest a b =
    ap (◌∷◌ x) (overwritten k new old rest (omega arith) (omega arith))

-- A read between the start and the end of a copy gives a picture that is neither: the first bytes
-- are of the new image, the others of the old one, if the old one was not read yet. The header is
-- right, and the old image is shown with all its pixels.
pub torn_frame :
    (k : ℕ) (old new : Image) (q : Preview) (last : ℕ)
    → q.frame.magic ≡ frame_magic
    → q.frame.version ≡ frame_version
    → ((q.frame_sequence + 1) % 2 ^ 32 == last) ≡ false
    → IsWhole (round (some old))
    → shown_of (some old) ≡ some (picture_of old)
    → k ≤ length old.pixels
    → k ≤ length new.pixels
    → let p = copy_part k new (preview_round (some old) q) in
      get_latest_preview_frame true (some p) last ≡ (
        latest (take k new.pixels ++ drop k old.pixels) old.width old.height,
        (q.frame_sequence + 1) % 2 ^ 32,
      )
unfolding get_latest_preview_frame copy_part write_image is_ready write_at take
torn_frame k old new q last m v fresh whole s a b =
    let (e, z) = round_holding old q s in
    rw e (
      read_readable (copy_part k new (holding old q)) last (rw m (==_refl frame_magic))
        (rw v (==_refl frame_version)) refl z
      ∙ rw
          (
            fresh,
            whole,
            take_all (length old.pixels) old.pixels (omega arith),
            zero-add (length (take k new.pixels)),
          )
          (rw (overwritten k new.pixels old.pixels _ b a) refl))
