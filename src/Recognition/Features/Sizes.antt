-- ===== src/Recognition/Features/Sizes.antt =====
-- The sizes of the features that have a similarity.
use smile2unlock_v.Base.{
  ℕ, suc, ◌*◌, ◌≤◌, ◌≡◌, refl, sym, ap, List, [], ◌∷◌, true, Option, none, some, arith, length,
}
use smile2unlock_v.Base.Text.{Bytes, is_empty}
use smile2unlock_v.Recognition.Features.{
  FloatArith, hex_value, pair_byte, hex_bytes, onto_floats, floats_of, floats_or_none,
  decode_feature_hex, all_finite, compare_vectors, compare_features_on_su,
}

size_of : {A : Type 0} → Option (List A) → ℕ
size_of none = 0
size_of (some xs) = length xs

pair_byte-some :
    (h l : Option ℕ) (o : Option Bytes) (bytes : Bytes)
    → pair_byte h l o ≡ some bytes
    → (rest : Bytes) × (o ≡ some rest) × (length bytes ≡ suc (length rest))
unfolding pair_byte size_of
pair_byte-some (some h) (some l) (some rest) bytes e = (rest, refl, sym (ap size_of e))
pair_byte-some none l o bytes e = absurd (ground (arith, e))
pair_byte-some (some h) none o bytes e = absurd (ground (arith, e))
pair_byte-some (some h) (some l) none bytes e = absurd (ground (arith, e))

-- Two digits for a byte.
length-hex_bytes : (s bytes : Bytes) → hex_bytes s ≡ some bytes → length s ≡ 2 * length bytes
unfolding hex_bytes size_of
length-hex_bytes [] bytes e = omega (arith, ap size_of e)
length-hex_bytes (a ∷ []) bytes e = absurd (ground (arith, e))
length-hex_bytes (a ∷ b ∷ s) bytes e =
    let (rest, found, size) = pair_byte-some (hex_value a) (hex_value b) (hex_bytes s) bytes e in
    omega (arith, length-hex_bytes s rest found, size)

module _ {F D : Type 0} (fa : FloatArith F D) where
  onto_floats-some :
      (x : F) (o : Option (List F)) (xs : List F)
      → onto_floats fa x o ≡ some xs
      → (rest : List F) × (o ≡ some rest) × (length xs ≡ suc (length rest))
  unfolding onto_floats size_of
  onto_floats-some x (some rest) xs e = (rest, refl, sym (ap size_of e))
  onto_floats-some x none xs e = absurd (ground (arith, e))

  -- Four bytes for a float.
  length-floats_of :
      (bytes : Bytes) (xs : List F) → floats_of fa bytes ≡ some xs → length bytes ≡ 4 * length xs
  unfolding floats_of size_of
  length-floats_of [] xs e = omega (arith, ap size_of e)
  length-floats_of (a ∷ []) xs e = absurd (ground (arith, e))
  length-floats_of (a ∷ b ∷ []) xs e = absurd (ground (arith, e))
  length-floats_of (a ∷ b ∷ c ∷ []) xs e = absurd (ground (arith, e))
  length-floats_of (a ∷ b ∷ c ∷ d ∷ s) xs e =
      let (rest, found, size) = onto_floats-some (fa.of_bytes a b c d) (floats_of fa s) xs e in
      omega (arith, length-floats_of s rest found, size)

  decoded_bytes :
      (o : Option Bytes) (xs : List F)
      → floats_or_none fa o ≡ some xs
      → (bytes : Bytes) × (o ≡ some bytes) × (floats_of fa bytes ≡ some xs)
  unfolding floats_or_none
  decoded_bytes none xs e = absurd (ground (arith, e))
  decoded_bytes (some bytes) xs e = (bytes, refl, e)

  length-decode_feature_hex :
      (hex : Bytes) (xs : List F) → decode_feature_hex fa hex ≡ some xs → length hex ≡ 8 * length xs
  unfolding decode_feature_hex is_empty
  length-decode_feature_hex [] xs e = absurd (ground (arith, e))
  length-decode_feature_hex (c ∷ s) xs e =
      let (bytes, found, floats) = decoded_bytes (hex_bytes (c ∷ s)) xs e in
      omega (arith, length-hex_bytes (c ∷ s) bytes found, length-floats_of bytes xs floats)

  vectors_checked :
      (probe enrolled : List F) (s : F)
      → compare_vectors fa (some probe) (some enrolled) ≡ some s
      → (length probe ≡ length enrolled)
        × (128 ≤ length probe)
        × (length probe ≤ 4096)
        × (all_finite fa probe enrolled ≡ true)
  unfolding compare_vectors
  vectors_checked probe enrolled s e = ground (arith, e)

  -- What a similarity says of two features.
  pub record IsComparable (feature1 feature2 : Bytes) : Type 0 where
    pub probe : List F
    pub enrolled : List F
    pub decodes : decode_feature_hex fa feature1 ≡ some probe
    pub decodes_too : decode_feature_hex fa feature2 ≡ some enrolled
    pub as_long : length probe ≡ length enrolled
    pub long : 128 ≤ length probe
    pub short : length probe ≤ 4096
    pub finite : all_finite fa probe enrolled ≡ true
    pub digits : length feature1 ≡ 8 * length probe
    pub digits_too : length feature2 ≡ 8 * length enrolled

  -- A similarity is given only for two features that decode to equally many floats, at least 128
  -- and at most 4096 and all finite, and then each feature has eight hex digits for a float.
  pub compare_features_on_su_sound :
      (feature1 feature2 : Bytes) (s : F)
      → compare_features_on_su fa feature1 feature2 ≡ some s
      → IsComparable feature1 feature2
  unfolding compare_features_on_su compare_vectors
  compare_features_on_su_sound feature1 feature2 s e =
      go (decode_feature_hex fa feature1) (decode_feature_hex fa feature2) refl refl e
    where
      go :
          (o o' : Option (List F))
          → decode_feature_hex fa feature1 ≡ o
          → decode_feature_hex fa feature2 ≡ o'
          → compare_vectors fa o o' ≡ some s
          → IsComparable feature1 feature2
      go none o' d d' e = absurd (ground (arith, e))
      go (some xs) none d d' e = absurd (ground (arith, e))
      go (some xs) (some ys) d d' e =
          let (same, long, short, finite) = vectors_checked xs ys s e in
          record {
            probe = xs;
            enrolled = ys;
            decodes = d;
            decodes_too = d';
            as_long = same;
            long = long;
            short = short;
            finite = finite;
            digits = length-decode_feature_hex feature1 xs d;
            digits_too = length-decode_feature_hex feature2 ys d';
          }
