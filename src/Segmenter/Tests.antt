-- ===== src/Segmenter/Tests.antt =====
-- Runs of the segmenter, and its theorems at concrete sizes.
use cdm.Prelude.{◌≡◌, refl, arith, length, min}
use cdm.Segmenter.{segmenter_plan, plan_range, plan_loop}
use cdm.Segmenter.Cover.{Tiles, segmenter_plan-Tiles}

plan_runs : length (segmenter_plan 10 3) ≡ 3
unfolding segmenter_plan plan_loop plan_range
plan_runs = refl

segmenter_plan-Tiles_example :
    Tiles 0 10 (segmenter_plan 10 3) × (length (segmenter_plan 10 3) ≡ min 3 10)
segmenter_plan-Tiles_example = segmenter_plan-Tiles 10 3 (omega arith) (omega arith) (omega arith)
