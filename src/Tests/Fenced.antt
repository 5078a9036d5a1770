-- ===== src/Tests/Fenced.antt =====
-- The Owner's operations beside a takeover.
use agent_panel_x.Prelude.{String, ◌≡◌, refl, Error, err, fence_error}
use agent_panel_x.Owner.Context.{OwnerStore}
use agent_panel_x.Owner.Context.Drive.{OwnerRun, drive_owner}
use agent_panel_x.Owner.Context.Fenced.{Refused, fenced_out-Refused}
use agent_panel_x.Tests.Computing.{computing}
use agent_panel_x.Tests.Computing.Owner.{computing_owner}
use agent_panel_x.Tests.Computing.Takeover.{computing_takeover}
use agent_panel_x.Tests.Owner.{waiting_store, replies}
use agent_panel_x.Tests.Takeover.{started, reached_started}

-- A caller without a token, while a takeover runs.
abbrev fenced_store : OwnerStore
fenced_store = record waiting_store { takeovers = started }

fenced_out-Refused_example : (e : Error) × Refused String e fenced_store
unfolding computing_takeover
fenced_out-Refused_example =
    fenced_out-Refused String fenced_store "t1" reached_started (refl, tt) (λ same. cc)

-- A takeover that begins while the Owner Agent runs: the end of the run raises, and the activation stays.
abbrev overtaken : OwnerRun
overtaken a s = ((replies a s).0, record s { takeovers = started })

overtaken_end :
    (drive_owner overtaken 5 7 waiting_store).0
    ≡ err (fence_error "Active AutoTakeover requires its current fence")
unfolding computing computing_owner computing_takeover
overtaken_end = refl
