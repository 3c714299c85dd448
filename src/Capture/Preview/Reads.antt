-- ===== src/Capture/Preview/Reads.antt =====
-- What one read of the preview gives, by what its memory holds.
use smile2unlock_v.Base.{
  ℕ, ◌+◌, ◌^◌, ◌%◌, ◌≡◌, refl, true, false, not, ◌||◌, subst, ◌∙◌, Option, none, some, arith, ltb,
  ◌==◌, ==_refl, if◌then◌else◌, take, length, inl, inr, Bool-cases,
}
use smile2unlock_v.Base.Text.{Bytes, text}
use smile2unlock_v.Capture.Frame.{frame_magic, frame_version, max_image_bytes}
use smile2unlock_v.Capture.Writer.{Image, is_positive, image_size, write_image}
use smile2unlock_v.Capture.Agreement.{image-written}
use smile2unlock_v.Capture.Preview.{
  Preview, preview_round, latest, refused, unchanged, is_ready, read_preview, PreviewTurn, round,
  Picture,
}

abbrev pub picture_of : Image → Picture
picture_of image = record { image_data = image.pixels; width = image.width; height = image.height }

-- The picture of a round whose image is shown.
unfoldable pub shown_of : Option Image → Option Picture
shown_of none = none
shown_of (some image) =
    let image_bytes = image_size image.width image.height image.channels in
    if not (is_positive image.width) || not (is_positive image.height)
    then none
    else if image_bytes == 0 || ltb max_image_bytes image_bytes
    then none
    else some (picture_of image)

-- The camera gives all pixels of an image.
abbrev pub IsWhole : PreviewTurn → Type 0
IsWhole (round (some image)) =
    image_size image.width image.height image.channels ≡ length image.pixels
IsWhole _ = Unit

-- What a read gives at most.
pub data Reads (p : Preview) (last : ℕ) : Option Picture → Type 0 where
  reads_it :
      (picture : Picture)
      → read_preview p last
        ≡ (latest picture.image_data picture.width picture.height, p.frame_sequence)
      → Reads p last (some picture)
  reads_error :
      (picture : Option Picture) (error : Bytes)
      → read_preview p last ≡ (refused error, last)
      → Reads p last picture
  reads_nothing :
      (picture : Option Picture) → read_preview p last ≡ (unchanged, last) → Reads p last picture

-- A mapping whose header is right and says that a picture is ready.
data IsReadable (p : Preview) : Type 0 where
  readable :
      (p.frame.magic == frame_magic) ≡ true
      → (p.frame.version == frame_version) ≡ true
      → is_ready p.frame.status_code ≡ true
      → (p.frame.image_bytes == 0 || ltb max_image_bytes p.frame.image_bytes) ≡ false
      → IsReadable p
  unreadable :
      (error : Bytes) → ((last : ℕ) → read_preview p last ≡ (refused error, last)) → IsReadable p

IsReadable-cases : (p : Preview) → IsReadable p
unfolding read_preview
IsReadable-cases p =
    let f = p.frame in
    elim (Bool-cases (f.magic == frame_magic)) [
      | inr m ↦ unreadable (text "预览共享内存无效") (λ last. rw m refl)
      | inl m ↦ elim (Bool-cases (f.version == frame_version)) [
        | inr v ↦ unreadable (text "预览共享内存无效") (λ last. rw (m, v) refl)
        | inl v ↦ elim (Bool-cases (is_ready f.status_code)) [
          | inr r ↦ unreadable (text "摄像头尚未输出可用画面") (λ last. rw (m, v, r) refl)
          | inl r ↦ elim (Bool-cases (f.image_bytes == 0 || ltb max_image_bytes f.image_bytes)) [
            | inl b ↦ unreadable (text "预览帧数据无效") (λ last. rw (m, v, r, b) refl)
            | inr b ↦ readable m v r b
          ]
        ]
      ]
    ]

-- What a read of a readable mapping gives.
pub read_readable :
    (p : Preview) (last : ℕ)
    → (p.frame.magic == frame_magic) ≡ true
    → (p.frame.version == frame_version) ≡ true
    → is_ready p.frame.status_code ≡ true
    → (p.frame.image_bytes == 0 || ltb max_image_bytes p.frame.image_bytes) ≡ false
    → read_preview p last ≡ (
        if p.frame_sequence == last then (unchanged, last) else (
          latest (take p.frame.image_bytes p.frame.body) p.frame.width p.frame.height,
          p.frame_sequence,
        ))
unfolding read_preview
read_readable p last m v r b = rw (m, v, r, b) refl

-- A second read gives nothing.
pub read_again : (p : Preview) → Reads p p.frame_sequence none
read_again p = elim (IsReadable-cases p) [
  | readable m v r b ↦
      reads_nothing none
        (read_readable p p.frame_sequence m v r b ∙ rw (==_refl p.frame_sequence) refl)
  | unreadable error e ↦ reads_error none error (e p.frame_sequence)
]

read_unready :
    (p : Preview) (last : ℕ) (picture : Option Picture)
    → is_ready p.frame.status_code ≡ false
    → Reads p last picture
read_unready p last picture u = elim (IsReadable-cases p) [
  | readable m v r b ↦ absurd cc
  | unreadable error e ↦ reads_error picture error (e last)
]

-- A mapping that holds a picture.
read_held :
    (p : Preview) (last : ℕ) (picture : Picture)
    → take p.frame.image_bytes p.frame.body ≡ picture.image_data
    → p.frame.width ≡ picture.width
    → p.frame.height ≡ picture.height
    → Reads p last (some picture)
read_held p last picture d w h = elim (IsReadable-cases p) [
  | unreadable error e ↦ reads_error (some picture) error (e last)
  | readable m v r b ↦ elim (Bool-cases (p.frame_sequence == last)) [
    | inl e ↦ reads_nothing (some picture) (read_readable p last m v r b ∙ rw e refl)
    | inr e ↦ reads_it picture (read_readable p last m v r b ∙ rw (e, d, w, h) refl)
  ]
]

abbrev pub size_of : Image → ℕ
size_of image = image_size image.width image.height image.channels

-- A round, by whether its image is shown.
data Rounded (picture : Option Image) (p : Preview) : Type 0 where
  not_shown :
      shown_of picture ≡ none
      → is_ready (preview_round picture p).frame.status_code ≡ false
      → (preview_round picture p).frame_sequence ≡ p.frame_sequence
      → Rounded picture p
  is_shown :
      (image : Image)
      → picture ≡ some image
      → (size_of image == 0 || ltb max_image_bytes (size_of image)) ≡ false
      → shown_of picture ≡ some (picture_of image)
      → preview_round picture p ≡ (record p {
        frame = record (write_image image (size_of image) p.frame) { feature_bytes = 0 };
        frame_sequence = (p.frame_sequence + 1) % 2 ^ 32;
      })
      → Rounded picture p

Rounded-cases : (picture : Option Image) (p : Preview) → Rounded picture p
unfolding preview_round shown_of is_ready
Rounded-cases none p = not_shown refl refl refl
Rounded-cases (some image) p =
    let n = image_size image.width image.height image.channels in
    elim (Bool-cases (not (is_positive image.width) || not (is_positive image.height))) [
      | inl e ↦ not_shown (rw e refl) (rw e refl) (rw e refl)
      | inr e ↦ elim (Bool-cases (n == 0 || ltb max_image_bytes n)) [
        | inl b ↦ not_shown (rw (e, b) refl) (rw (e, b) refl) (rw (e, b) refl)
        | inr b ↦ is_shown image refl b (rw (e, b) refl) (rw (e, b) refl)
      ]
    ]

pub round_read :
    (picture : Option Image) (p : Preview) (last : ℕ)
    → IsWhole (round picture)
    → Reads (preview_round picture p) last (shown_of picture)
unfolding write_image
round_read picture p last whole = elim (Rounded-cases picture p) [
  | not_shown s u q ↦ read_unready (preview_round picture p) last (shown_of picture) u
  | is_shown image at b s e ↦
      (let held : image_size image.width image.height image.channels ≡ length image.pixels =
          subst (λ x. IsWhole (round x)) at whole in
        rw (s, e) (read_held _ last _ (rw held (image-written image p.frame)) refl refl))
]

-- What the memory holds after a round that shows an image.
abbrev pub holding : Image → Preview → Preview
holding image q = record q {
  frame = record (write_image image (size_of image) q.frame) { feature_bytes = 0 };
  frame_sequence = (q.frame_sequence + 1) % 2 ^ 32;
}

pub round_holding :
    (image : Image) (q : Preview)
    → shown_of (some image) ≡ some (picture_of image)
    → (preview_round (some image) q ≡ holding image q)
      × ((size_of image == 0 || ltb max_image_bytes (size_of image)) ≡ false)
unfolding preview_round shown_of
round_holding image q s =
    elim (Bool-cases (not (is_positive image.width) || not (is_positive image.height))) [
      | inl e ↦ absurd (ground (arith, s))
      | inr e ↦ elim (Bool-cases (size_of image == 0 || ltb max_image_bytes (size_of image))) [
        | inl b ↦ absurd (ground (arith, s))
        | inr b ↦ (rw (e, b) refl, b)
      ]
    ]

pub read_shown :
    (image : Image) (q : Preview) (last : ℕ)
    → q.frame.magic ≡ frame_magic
    → q.frame.version ≡ frame_version
    → ((q.frame_sequence + 1) % 2 ^ 32 == last) ≡ false
    → IsWhole (round (some image))
    → shown_of (some image) ≡ some (picture_of image)
    → let p = preview_round (some image) q in
      read_preview p last ≡ (latest image.pixels image.width image.height, p.frame_sequence)
unfolding write_image is_ready
read_shown image q last m v new whole s =
    let (e, b) = round_holding image q s in
    rw e (
      read_readable (holding image q) last (rw m (==_refl frame_magic))
        (rw v (==_refl frame_version)) refl b
      ∙ rw (new, whole, image-written image q.frame) refl)
