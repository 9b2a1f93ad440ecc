-- ===== src/Format/Bytes.antt =====
-- The unit of a byte count.
use grouproxy.Base.{
  ℕ, zero, suc, ◌+◌, ◌*◌, ◌≤◌, ◌<◌, false, ◌≡◌, refl, ap, ◌⊎◌, inl, inr, arith, leb, Bool-cases,
  tests,
}
use grouproxy.Format.{Scaled, scale_bytes, first_scale}

abbrev pub thousands : ℕ → ℕ
thousands zero = 1
thousands (suc n) = 1000 * thousands n

-- The amount is below 1000 unless the unit is the last, and at least 1 unless it is the first; the
-- scale is the one of the unit.
pub record IsScaled (value last : ℕ) (s : Scaled) : Type 0 where
  pub scale_of_unit : s.scale ≡ thousands s.unit_index
  pub below : (value < 1000 * s.scale) ⊎ (s.unit_index ≡ last)
  pub above : (s.scale ≤ value) ⊎ (s.unit_index ≡ 0)
  pub within : s.unit_index ≤ last

not_leb : (a b : ℕ) → leb a b ≡ false → b < a
not_leb a b h = ground arith

scale_bytes-from :
    (value left last : ℕ) (s : Scaled)
    → s.scale ≡ thousands s.unit_index
    → (s.scale ≤ value) ⊎ (s.unit_index ≡ 0)
    → s.unit_index + left ≡ last
    → IsScaled value last (scale_bytes value left s)
unfolding scale_bytes
scale_bytes-from value zero last s h above e = record {
  scale_of_unit = h;
  below = inr (omega arith);
  above = above;
  within = omega arith;
}
scale_bytes-from value (suc left) last s h above e =
    elim (Bool-cases (leb (1000 * s.scale) value)) [
      | inl more ↦ rw more (
          scale_bytes-from value left last
            (record { unit_index = suc s.unit_index; scale = 1000 * s.scale })
            (ap (λ k. 1000 * k) h) (inl (omega tests)) (omega arith))
      | inr done ↦ rw done (record {
        scale_of_unit = h;
        below = inl (not_leb (1000 * s.scale) value done);
        above = above;
        within = omega arith;
      })
    ]

-- The scale that a count of bytes is shown in is that of its unit, one of five. The amount is below
-- 1000 unless the unit is the last, and at least 1 unless it is the first.
pub scale_bytes-IsScaled : (value : ℕ) → IsScaled value 4 (scale_bytes value 4 first_scale)
scale_bytes-IsScaled value = scale_bytes-from value 4 4 first_scale refl (inr refl) refl
