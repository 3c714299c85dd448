-- ===== src/Capture/Preview/Frames.antt =====
-- Which pictures a reader of the preview gets.
use smile2unlock_v.Base.{
  ℕ, ◌+◌, ◌-◌, ◌^◌, ◌%◌, ◌≤◌, ◌<◌, ◌≡◌, refl, List, [], ◌∷◌, true, not, ◌||◌, subst, Option, none,
  some, arith, ltb, ◌==◌, length, All, inl, inr, Bool-cases,
}
use smile2unlock_v.Capture.Frame.{frame_magic, frame_version, max_image_bytes, capture_failed}
use smile2unlock_v.Capture.Writer.{Image, is_positive, write_image}
use smile2unlock_v.Capture.Preview.{
  Preview, reset_preview, with_status, preview_round, latest, get_latest_preview_frame, Store,
  store, round_stores, PreviewEvent, PreviewTurn, round, poll, writes, events_of, Picture,
  delivered, copy_part,
}
use mathlib.Core.List.{Sublistᴰ}
use smile2unlock_v.Capture.Preview.Reads.{
  picture_of, shown_of, IsWhole, Reads, reads_it, reads_error, reads_nothing, read_again,
  round_read, read_shown, size_of,
}

abbrev pub before : Option Picture → List Picture → List Picture
before none pictures = pictures
before (some picture) pictures = picture ∷ pictures

-- The pictures that the rounds show, in order.
unfoldable pub shown : List PreviewTurn → List Picture
unfolding shown_of
shown [] = []
shown (round picture ∷ turns) = before (shown_of picture) (shown turns)
shown (poll ∷ turns) = shown turns

Sublist-before :
    (picture : Option Picture) {l m : List Picture} → Sublistᴰ l m → Sublistᴰ l (before picture m)
Sublist-before none s = s
Sublist-before (some picture) s = Sublistᴰ.cons s

[]-Sublist : (l : List Picture) → Sublistᴰ [] l
[]-Sublist [] = Sublistᴰ.slnil
[]-Sublist (picture ∷ l) = Sublistᴰ.cons ([]-Sublist l)

store_all : List Store → Preview → Preview
store_all [] p = p
store_all (w ∷ stores) p = store_all stores (store w p)

delivered-writes :
    (stores : List Store) (events : List PreviewEvent) (p : Preview) (last : ℕ)
    → delivered (writes stores events) p last ≡ delivered events (store_all stores p) last
unfolding delivered writes store_all
delivered-writes [] events p last = refl
delivered-writes (w ∷ stores) events p last = delivered-writes stores events (store w p) last

-- The writes of a round make what the round is said to make.
store_all-round_stores :
    (picture : Option Image) (p : Preview)
    → store_all (round_stores picture) p ≡ preview_round picture p
unfolding store_all store round_stores preview_round write_image copy_part
store_all-round_stores none p = refl
store_all-round_stores (some image) p =
    elim (Bool-cases (not (is_positive image.width) || not (is_positive image.height))) [
      | inl e ↦ rw e refl
      | inr e ↦ elim (Bool-cases (size_of image == 0 || ltb max_image_bytes (size_of image))) [
        | inl b ↦ rw (e, b) refl
        | inr b ↦ rw (e, b) refl
      ]
    ]

delivered-held :
    (turns : List PreviewTurn) (p : Preview) (last : ℕ) (picture : Option Picture)
    → All IsWhole turns
    → Reads p last picture
    → Sublistᴰ (delivered (events_of turns) p last) (before picture (shown turns))
unfolding delivered events_of shown get_latest_preview_frame
delivered-held [] p last picture a r = []-Sublist (before picture [])
delivered-held (round next ∷ turns) p last picture a r =
    rw
      (delivered-writes (round_stores next) (events_of turns) p last, store_all-round_stores next p)
      (Sublist-before picture (
        delivered-held turns (preview_round next p) last (shown_of next) a.1
          (round_read next p last a.0)))
delivered-held (poll ∷ turns) p last picture a (reads_it it e) =
    rw e (Sublistᴰ.cons-cons refl (delivered-held turns p p.frame_sequence none a.1 (read_again p)))
delivered-held (poll ∷ turns) p last picture a (reads_error it error e) =
    rw e (delivered-held turns p last picture a.1 (reads_error picture error e))
delivered-held (poll ∷ turns) p last picture a (reads_nothing it e) =
    rw e (delivered-held turns p last picture a.1 (reads_nothing picture e))

-- When no read falls inside a round of the writer, a round being its writes to the mapping in the
-- order of the code: however many rounds and reads follow one another, from the start of a stream
-- on, the reader gets pictures that were shown, in their order, and none of them twice, also when
-- the sequence number wraps around. The camera gives all pixels of its images.
pub delivered-shown :
    (turns : List PreviewTurn) (p : Preview)
    → All IsWhole turns
    → Sublistᴰ (delivered (events_of turns) (reset_preview p) 0) (shown turns)
unfolding reset_preview
delivered-shown turns p a =
    delivered-held turns (reset_preview p) 0 none a (read_again (reset_preview p))

abbrev pub all_rounds : List (Option Image) → Preview → Preview
all_rounds [] p = p
all_rounds (picture ∷ pictures) p = all_rounds pictures (preview_round picture p)

-- The header stays right, and the sequence number grows by at most one in a round.
record IsStreamed (n : ℕ) (q p : Preview) : Type 0 where
  magic : p.frame.magic ≡ frame_magic
  version : p.frame.version ≡ frame_version
  grown : (k : ℕ) × (k ≤ n) × (p.frame_sequence ≡ (q.frame_sequence + k) % 2 ^ 32)

round-IsStreamed :
    (n : ℕ) (q : Preview) (picture : Option Image) (p : Preview)
    → IsStreamed n q p
    → IsStreamed (n + 1) q (preview_round picture p)
unfolding preview_round write_image
round-IsStreamed n q none p s = kept s
  where
    kept : IsStreamed n q p → IsStreamed (n + 1) q (with_status capture_failed p)
    kept s = record {
      magic = s.magic;
      version = s.version;
      grown = (s.grown.0, omega (arith, s.grown.1), s.grown.2);
    }
round-IsStreamed n q (some image) p s =
    elim (Bool-cases (not (is_positive image.width) || not (is_positive image.height))) [
      | inl e ↦ rw e (record {
        magic = s.magic;
        version = s.version;
        grown = (s.grown.0, omega (arith, s.grown.1), s.grown.2);
      })
      | inr e ↦ elim (Bool-cases (size_of image == 0 || ltb max_image_bytes (size_of image))) [
        | inl b ↦
            rw (e, b)
              (record {
                magic = s.magic;
                version = s.version;
                grown = (s.grown.0, omega (arith, s.grown.1), s.grown.2);
              })
        | inr b ↦
            rw (e, b)
              (record {
                magic = s.magic;
                version = s.version;
                grown = (s.grown.0 + 1, omega (arith, s.grown.1), omega (arith, s.grown.2));
              })
      ]
    ]

all_rounds-IsStreamed :
    (n : ℕ) (q : Preview) (pictures : List (Option Image)) (p : Preview)
    → IsStreamed n q p
    → IsStreamed (n + length pictures) q (all_rounds pictures p)
all_rounds-IsStreamed n q [] p s = subst (λ k. IsStreamed k q p) (omega arith) s
all_rounds-IsStreamed n q (picture ∷ pictures) p s =
    subst (λ k. IsStreamed k q (all_rounds pictures (preview_round picture p))) (omega arith)
      (all_rounds-IsStreamed (n + 1) q pictures (preview_round picture p)
        (round-IsStreamed n q picture p s))

-- A read after rounds of which the last one shows an image, and fewer than 2^32 - 1 before it since
-- the last read, gives that image, whatever the other rounds found. The header is right, and the
-- camera gives all pixels of the image.
pub get_latest_preview_frame-latest :
    (pictures : List (Option Image)) (image : Image) (p : Preview)
    → p.frame.magic ≡ frame_magic
    → p.frame.version ≡ frame_version
    → p.frame_sequence < 2 ^ 32
    → length pictures < 2 ^ 32 - 1
    → IsWhole (round (some image))
    → shown_of (some image) ≡ some (picture_of image)
    → let p' = preview_round (some image) (all_rounds pictures p) in
      get_latest_preview_frame true (some p') p.frame_sequence
      ≡ (latest image.pixels image.width image.height, p'.frame_sequence)
unfolding get_latest_preview_frame
get_latest_preview_frame-latest pictures image p m v low few whole s =
    let q = all_rounds pictures p in
    let t =
      all_rounds-IsStreamed 0 p pictures p
        (record { magic = m; version = v; grown = (0, omega arith, omega arith) }) in
    read_shown image q p.frame_sequence t.magic t.version
      (ground (arith, low, few, t.grown.1, t.grown.2)) whole s
