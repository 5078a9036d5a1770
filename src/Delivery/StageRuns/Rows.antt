-- ===== src/Delivery/StageRuns/Rows.antt =====
-- Which row an update changes, and where it stands afterwards.
use agent_panel_x.Delivery.Models.Checks.{check_stage_run-identity}
use agent_panel_x.Prelude.{ℕ, String, ◌≡◌, Bool, ◌&&◌, Option, some, List, ◌==◌, find, ok}
use agent_panel_x.Delivery.Models.{StageRunStatus, StageRun, check_stage_run, is_running}
use agent_panel_x.Table.{update_first}
use agent_panel_x.Table.Updates.{update_first-found}
use agent_panel_x.Table.Checked.{checked-raised}
use agent_panel_x.Delivery.StageRuns.{finished, finish}

abbrev pub running_with_id : String → StageRun → Bool
running_with_id stage_run_id r = r.stage_run_id == stage_run_id && is_running r.status

-- The row that `_finish` returns is the running row with the identity, with the terminal fields set
-- and its lease dropped.
pub finish-found :
    (stage_run_id : String) (status : StageRunStatus) (output failure : Option String)
    (finished_at : ℕ) (rows rows' : List StageRun) (r : StageRun)
    → finish stage_run_id status output failure finished_at rows ≡ ok (r, rows')
    → (old : StageRun) × (find (running_with_id stage_run_id) rows ≡ some old)
      × (r ≡ finished status output failure finished_at old)
      × (update_first
            (running_with_id stage_run_id)
            (finished status output failure finished_at)
            rows
          ≡ some (r, rows'))
      × (check_stage_run r ≡ ok r)
unfolding finish
finish-found id st out fl n rows rows' r e =
    let (found, valid) = checked-raised check_stage_run check_stage_run-identity _ _ r rows' e in
    let (old, is_old, made) = update_first-found _ _ rows rows' r found in
    (old, is_old, made, found, valid)
