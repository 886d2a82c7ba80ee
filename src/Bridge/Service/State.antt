-- ===== src/Bridge/Service/State.antt =====
-- bridge_agent/include/accel_service.h: the state of the service, and the writes to its members.
use multi_agent_accelerator.Bridge.Ads.{AdsState}
use multi_agent_accelerator.Bridge.Anode.{Anode}
use multi_agent_accelerator.Bridge.Config.{Configfile}
use multi_agent_accelerator.Bridge.Protocol.{generate_status_msg}
use multi_agent_accelerator.Bridge.Status.{AppState, StatusAgent, update_status}
use multi_agent_accelerator.Pending.Bridge.{PendingMsg}
use multi_agent_accelerator.Prelude.{Bool, List, Option, Text, [], none, some, suc, ℕ, ◌∷◌}
use multi_agent_accelerator.Wire.{Multipart}

module _ {Frame : Type 0} (m : Multipart Frame) where
  -- `_stop` to `_bridge_checklist`; `_init_bridge` as the number of its calls.
  pub record Service : Type 0 where
    pub stop : Bool
    pub job_id : Text
    pub config_file : Configfile
    pub node_manager : List (Anode m)
    pub pending_msgs : List (Text × PendingMsg)
    pub data_steering : List (Text × AdsState)
    pub stat_agent : StatusAgent
    pub init_bridge_calls : ℕ
    pub bridge_checklist : List (Text × Bool)

  abbrev pub with_stop : Bool → Service → Service
  with_stop v s = record {
    stop = v;
    job_id = s.job_id;
    config_file = s.config_file;
    node_manager = s.node_manager;
    pending_msgs = s.pending_msgs;
    data_steering = s.data_steering;
    stat_agent = s.stat_agent;
    init_bridge_calls = s.init_bridge_calls;
    bridge_checklist = s.bridge_checklist;
  }

  abbrev pub with_nodes : List (Anode m) → Service → Service
  with_nodes v s = record {
    stop = s.stop;
    job_id = s.job_id;
    config_file = s.config_file;
    node_manager = v;
    pending_msgs = s.pending_msgs;
    data_steering = s.data_steering;
    stat_agent = s.stat_agent;
    init_bridge_calls = s.init_bridge_calls;
    bridge_checklist = s.bridge_checklist;
  }

  abbrev pub with_pending : List (Text × PendingMsg) → Service → Service
  with_pending v s = record {
    stop = s.stop;
    job_id = s.job_id;
    config_file = s.config_file;
    node_manager = s.node_manager;
    pending_msgs = v;
    data_steering = s.data_steering;
    stat_agent = s.stat_agent;
    init_bridge_calls = s.init_bridge_calls;
    bridge_checklist = s.bridge_checklist;
  }

  abbrev pub with_ads : List (Text × AdsState) → Service → Service
  with_ads v s = record {
    stop = s.stop;
    job_id = s.job_id;
    config_file = s.config_file;
    node_manager = s.node_manager;
    pending_msgs = s.pending_msgs;
    data_steering = v;
    stat_agent = s.stat_agent;
    init_bridge_calls = s.init_bridge_calls;
    bridge_checklist = s.bridge_checklist;
  }

  abbrev pub with_status : StatusAgent → Service → Service
  with_status v s = record {
    stop = s.stop;
    job_id = s.job_id;
    config_file = s.config_file;
    node_manager = s.node_manager;
    pending_msgs = s.pending_msgs;
    data_steering = s.data_steering;
    stat_agent = v;
    init_bridge_calls = s.init_bridge_calls;
    bridge_checklist = s.bridge_checklist;
  }

  abbrev pub with_checklist : List (Text × Bool) → Service → Service
  with_checklist v s = record {
    stop = s.stop;
    job_id = s.job_id;
    config_file = s.config_file;
    node_manager = s.node_manager;
    pending_msgs = s.pending_msgs;
    data_steering = s.data_steering;
    stat_agent = s.stat_agent;
    init_bridge_calls = s.init_bridge_calls;
    bridge_checklist = v;
  }

  abbrev pub call_init_bridge : Service → Service
  call_init_bridge s = record {
    stop = s.stop;
    job_id = s.job_id;
    config_file = s.config_file;
    node_manager = s.node_manager;
    pending_msgs = s.pending_msgs;
    data_steering = s.data_steering;
    stat_agent = s.stat_agent;
    init_bridge_calls = suc s.init_bridge_calls;
    bridge_checklist = s.bridge_checklist;
  }

  -- What a handler returns: the messages to send, and the state.
  abbrev pub Result : Type 0
  Result = Option (List (List Frame) × Service)

  -- `update_status`, and the status message if the state has changed
  unfoldable pub report_status : AppState → Text → Service → List (List Frame) × Service
  report_status st key s =
      let (stat_msg, agent) = generate_status_msg m key (update_status st s.stat_agent) in
      (elim stat_msg [ none ↦ [] | some msg ↦ msg ∷ [] ], with_status agent s)
