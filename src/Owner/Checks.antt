-- ===== src/Owner/Checks.antt =====
-- A check of an activation gives its own value back, and a summary changes nothing that it tests.
use agent_panel_x.Prelude.{String, ◌≡◌, false, some, arith, is_blank, ok, raising}
use agent_panel_x.Owner.{OwnerActivation, check_activation}

pub check_activation-identity : (a b : OwnerActivation) → check_activation a ≡ ok b → b ≡ a
unfolding raising check_activation
check_activation-identity a b h = ground arith

pub check_activation-summary :
    (a : OwnerActivation) (summary_id : String)
    → is_blank summary_id ≡ false
    → check_activation a ≡ ok a
    → check_activation (record a { summary_id = some summary_id })
      ≡ ok (record a { summary_id = some summary_id })
unfolding raising check_activation
check_activation-summary a s h e = ground arith
