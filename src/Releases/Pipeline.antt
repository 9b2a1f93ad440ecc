-- ===== src/Releases/Pipeline.antt =====
-- The pipeline of frontend/app/releases/page.tsx.
use grouproxy.Base.{
  ℕ, suc, ◌+◌, ◌<◌, ◌≤◌, String, Bool, true, false, ◌≡◌, refl, ap, inl, inr, Bool-cases, List, [],
  ◌∷◌, map, length, All, arith, ltb, str_eq,
}
use grouproxy.Api.Entities.Releases.{Release}
use grouproxy.Releases.{
  release_stages, index_of, or_first, stage_position, position_of, StageItem, stage_item,
  stage_items, pipeline,
}

abbrev pub IsComplete : StageItem → Type 0
IsComplete item = (item.complete ≡ true) × (item.current ≡ false)

abbrev pub IsCurrent : StageItem → Type 0
IsCurrent item = (item.complete ≡ false) × (item.current ≡ true)

abbrev pub IsWaiting : StageItem → Type 0
IsWaiting item = (item.complete ≡ false) × (item.current ≡ false)

-- Complete items, then one current item unless the release has succeeded, and then items that wait.
pub data IsOrdered (succeeded : Bool) : List StageItem → Type 0 where
  ended :
      (ahead : List StageItem) → succeeded ≡ true → All IsWaiting ahead → IsOrdered succeeded ahead
  running :
      (item : StageItem) (ahead : List StageItem)
      → succeeded ≡ false
      → IsCurrent item
      → All IsWaiting ahead
      → IsOrdered succeeded (item ∷ ahead)
  passed :
      (item : StageItem) (more : List StageItem)
      → IsComplete item
      → IsOrdered succeeded more
      → IsOrdered succeeded (item ∷ more)

stage_item-IsComplete :
    (succeeded : Bool) (position index : ℕ) (stage : String)
    → index < position
    → IsComplete (stage_item succeeded position index stage)
unfolding stage_item
stage_item-IsComplete true position index stage h = (ground arith, ground arith)
stage_item-IsComplete false position index stage h = (ground arith, ground arith)

stage_item-IsWaiting :
    (succeeded : Bool) (position index : ℕ) (stage : String)
    → position < index
    → IsWaiting (stage_item succeeded position index stage)
unfolding stage_item
stage_item-IsWaiting true position index stage h = (ground arith, ground arith)
stage_item-IsWaiting false position index stage h = (ground arith, ground arith)

ahead-IsWaiting :
    (succeeded : Bool) (position index : ℕ) (stages : List String)
    → position < index
    → All IsWaiting (stage_items succeeded position index stages)
unfolding stage_items
ahead-IsWaiting succeeded position index [] h = tt
ahead-IsWaiting succeeded position index (stage ∷ more) h = (
  stage_item-IsWaiting succeeded position index stage h,
  ahead-IsWaiting succeeded position (suc index) more (omega arith),
)

at_position-IsOrdered :
    (succeeded : Bool) (position : ℕ) (stage : String) (ahead : List StageItem)
    → All IsWaiting ahead
    → IsOrdered succeeded (stage_item succeeded position position stage ∷ ahead)
unfolding stage_item
at_position-IsOrdered true position stage ahead h =
    passed _ ahead (ground arith, ground arith) (ended ahead refl h)
at_position-IsOrdered false position stage ahead h =
    running _ ahead refl (ground arith, ground arith) h

stage_items-IsOrdered :
    (succeeded : Bool) (position index : ℕ) (stages : List String)
    → index ≤ position
    → position < index + length stages
    → IsOrdered succeeded (stage_items succeeded position index stages)
unfolding stage_items
stage_items-IsOrdered succeeded position index [] low high = absurd (omega arith)
stage_items-IsOrdered succeeded position index (stage ∷ more) low high =
    elim (Bool-cases (ltb index position)) [
      | inl before ↦
          passed _ _ (stage_item-IsComplete succeeded position index stage (ground arith))
            (stage_items-IsOrdered succeeded position (suc index) more (ground arith) (omega arith))
      | inr here ↦
          let same : index ≡ position = ground arith in
          rw same (
            at_position-IsOrdered succeeded position stage _
              (ahead-IsWaiting succeeded position (suc position) more (omega arith)))
    ]

stage_items-stages :
    (succeeded : Bool) (position index : ℕ) (stages : List String)
    → map StageItem.stage (stage_items succeeded position index stages) ≡ stages
unfolding stage_items stage_item
stage_items-stages succeeded position index [] = refl
stage_items-stages succeeded position index (stage ∷ more) =
    ap (λ rest. stage ∷ rest) (stage_items-stages succeeded position (suc index) more)

index_of-lt :
    (stage : String) (i : ℕ) (stages : List String)
    → 0 < i + length stages
    → or_first (index_of stage i stages) < i + length stages
unfolding index_of
index_of-lt stage i [] h = omega arith
index_of-lt stage i (s ∷ ss) h = elim (Bool-cases (str_eq s stage)) [
  | inl same ↦ rw same (omega arith)
  | inr other ↦ rw other (omega (arith, index_of-lt stage (suc i) ss (omega arith)))
]

position_of-lt : (r : Release) → position_of r < 6
unfolding position_of stage_position
position_of-lt r = elim (Bool-cases (str_eq r.status "failed")) [
  | inl failed ↦ rw failed (omega arith)
  | inr other ↦ rw other (index_of-lt r.stage 0 release_stages (omega arith))
]

-- The pipeline of a release, whatever its state and its stage are called, has the six stages in their
-- order: first the complete ones, then exactly one current stage, and none if the release has
-- succeeded, and then those that wait.
pub pipeline-IsOrdered :
    (r : Release)
    → (map StageItem.stage (pipeline r) ≡ release_stages)
      × IsOrdered (str_eq r.status "succeeded") (pipeline r)
unfolding pipeline
pipeline-IsOrdered r = (
  stage_items-stages (str_eq r.status "succeeded") (position_of r) 0 release_stages,
  stage_items-IsOrdered (str_eq r.status "succeeded") (position_of r) 0 release_stages (omega arith)
      (position_of-lt r),
)
