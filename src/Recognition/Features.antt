-- ===== src/Recognition/Features.antt =====
-- DecodeFeatureHex and compare_features_on_su: the cosine of two feature vectors that are kept as
-- the hex digits of their floats. The arithmetic of float and double is a parameter.
pub mod Sizes
use smile2unlock_v.Base.{
  ℕ, zero, suc, ◌+◌, ◌-◌, ◌*◌, ◌%◌, ◌≡◌, refl, List, [], ◌∷◌, Bool, true, false, not, ◌&&◌, ◌||◌,
  Option, none, some, arith, ltb, leb, ◌==◌, if◌then◌else◌, length,
}
use smile2unlock_v.Base.Text.{Bytes, is_empty}

-- `F` is float and `D` is double.
pub record FloatArith (F D : Type 0) : Type 0 where
  -- The float with these four bytes, the lowest first.
  pub of_bytes : ℕ → ℕ → ℕ → ℕ → F
  pub is_finite : F → Bool
  pub widen : F → D
  pub narrow : D → F
  pub zero_double : D
  pub epsilon : D
  pub lower_end : D
  pub upper_end : D
  pub plus : D → D → D
  pub times : D → D → D
  pub over : D → D → D
  pub sqrt : D → D
  pub at_most : D → D → Bool
  pub below : D → D → Bool

-- `none` stands for -1.
unfoldable pub hex_value : ℕ → Option ℕ
hex_value ch =
    if leb b'0' ch && leb ch b'9'
    then some (ch - b'0')
    else if leb b'a' ch && leb ch b'f'
    then some (10 + (ch - b'a'))
    else if leb b'A' ch && leb ch b'F'
    then some (10 + (ch - b'A'))
    else none

pair_byte : Option ℕ → Option ℕ → Option Bytes → Option Bytes
pair_byte (some high) (some low) (some bytes) = some ((high * 16 + low) ∷ bytes)
pair_byte _ _ _ = none

-- `none` for an odd number of digits too.
unfoldable pub hex_bytes : Bytes → Option Bytes
unfolding pair_byte
hex_bytes [] = some []
hex_bytes (a ∷ []) = none
hex_bytes (a ∷ b ∷ s) = pair_byte (hex_value a) (hex_value b) (hex_bytes s)

module _ {F D : Type 0} (fa : FloatArith F D) where
  onto_floats : F → Option (List F) → Option (List F)
  onto_floats x none = none
  onto_floats x (some xs) = some (x ∷ xs)

  unfoldable pub floats_of : Bytes → Option (List F)
  unfolding onto_floats
  floats_of [] = some []
  floats_of (a ∷ b ∷ c ∷ d ∷ s) = onto_floats (fa.of_bytes a b c d) (floats_of s)
  floats_of _ = none

  floats_or_none : Option Bytes → Option (List F)
  unfolding floats_of
  floats_or_none none = none
  floats_or_none (some bytes) = floats_of bytes

  unfoldable pub decode_feature_hex : Bytes → Option (List F)
  unfolding floats_or_none hex_bytes
  decode_feature_hex hex = if is_empty hex then none else floats_or_none (hex_bytes hex)

  unfoldable pub all_finite : List F → List F → Bool
  all_finite (x ∷ xs) (y ∷ ys) = fa.is_finite x && fa.is_finite y && all_finite xs ys
  all_finite _ _ = true

  -- `dot`, `probe_norm` and `enrolled_norm`.
  pub record Sums : Type 0 where
    pub dot : D
    pub probe_norm : D
    pub enrolled_norm : D

  unfoldable pub sums : List F → List F → Sums → Sums
  sums (x ∷ xs) (y ∷ ys) s = sums xs ys (record {
    dot = fa.plus s.dot (fa.times (fa.widen x) (fa.widen y));
    probe_norm = fa.plus s.probe_norm (fa.times (fa.widen x) (fa.widen x));
    enrolled_norm = fa.plus s.enrolled_norm (fa.times (fa.widen y) (fa.widen y));
  })
  sums _ _ s = s

  unfoldable pub similarity_of : Sums → Option F
  similarity_of s =
      let sqrt_probe = fa.sqrt s.probe_norm in
      let sqrt_enrolled = fa.sqrt s.enrolled_norm in
      let similarity_value = fa.over s.dot (fa.times sqrt_probe sqrt_enrolled) in
      if fa.at_most s.probe_norm fa.epsilon || fa.at_most s.enrolled_norm fa.epsilon
      then none
      else if fa.at_most sqrt_probe fa.epsilon || fa.at_most sqrt_enrolled fa.epsilon
      then none
      else if fa.below similarity_value fa.lower_end || fa.below fa.upper_end similarity_value
      then none
      else some (fa.narrow similarity_value)

  unfoldable pub compare_vectors : Option (List F) → Option (List F) → Option F
  unfolding all_finite sums similarity_of
  compare_vectors (some probe) (some enrolled) =
      if length probe == 0 || length enrolled == 0
      then none
      else if not (length probe == length enrolled)
      then none
      else if ltb (length probe) 128 || ltb 4096 (length probe)
      then none
      else if not (all_finite probe enrolled)
      then none
      else similarity_of (
          sums probe enrolled (record {
            dot = fa.zero_double;
            probe_norm = fa.zero_double;
            enrolled_norm = fa.zero_double;
          }))
  compare_vectors _ _ = none

  -- `none` when it returns false.
  unfoldable pub compare_features_on_su : Bytes → Bytes → Option F
  unfolding compare_vectors decode_feature_hex
  compare_features_on_su feature1 feature2 =
      compare_vectors (decode_feature_hex feature1) (decode_feature_hex feature2)
