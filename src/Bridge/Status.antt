-- ===== src/Bridge/Status.antt =====
-- bridge_agent/api/include/accel_utils.h: the status of the application that the bridge reports.
use multi_agent_accelerator.Prelude.{Bool, Option, Text, codes, if◌then◌else◌, ltb, true, ℕ}

pub data AppState : Type 0 where
  notstarted started initializing initialized completed : AppState

abbrev pub rank : AppState → ℕ
rank notstarted = 0
rank started = 1
rank initializing = 2
rank initialized = 3
rank completed = 4

abbrev pub to_string : AppState → Text
to_string notstarted = codes "NOTSTARTED"
to_string started = codes "STARTED"
to_string initializing = codes "INITIALIZING"
to_string initialized = codes "INITIALIZED"
to_string completed = codes "COMPLETED"

-- `status_agent`
pub record StatusAgent : Type 0 where
  pub addr : Option Text
  pub state : AppState
  pub state_updated : Bool

unfoldable pub update_status : AppState → StatusAgent → StatusAgent
update_status s agent =
    if ltb (rank agent.state) (rank s)
    then record { addr = agent.addr; state = s; state_updated = true }
    else agent
