-- ===== src/Delivery/Models/Checks.antt =====
-- A check of a constructor gives its own value back.
use agent_panel_x.Prelude.{◌≡◌, arith, ok, raising}
use agent_panel_x.Delivery.Models.{MilestoneSnapshot, StageRun, check_snapshot, check_stage_run}

pub check_stage_run-identity : (a b : StageRun) → check_stage_run a ≡ ok b → b ≡ a
unfolding raising check_stage_run
check_stage_run-identity a b h = ground arith

pub check_snapshot-identity : (a b : MilestoneSnapshot) → check_snapshot a ≡ ok b → b ≡ a
unfolding raising check_snapshot
check_snapshot-identity a b h = ground arith
