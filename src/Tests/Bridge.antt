-- ===== src/Tests/Bridge.antt =====
-- bridge_agent/src/accel_service.cc at a concrete service.
use multi_agent_accelerator.Bridge.Ads.{
  AdsState, find_adss, find_create_adss, get_accel_id, get_nex_id, is_claim_active,
}
use multi_agent_accelerator.Bridge.Anode.{init_anode, post_init, send_to}
use multi_agent_accelerator.Bridge.Config.{
  Configfile, Finds, first_at, header_order, get_function_entry, get_function_header,
}
use multi_agent_accelerator.Bridge.Protocol.{
  AccelCtrl, AccelHeader, get_nexus_id, placeholder, reverse_lookup, stoul, stoul_digits,
}
use multi_agent_accelerator.Bridge.Service.Claims.{
  IsRegistered, accel_claim-IsRegistered, accel_claim_resp-answers, accel_send-forwards,
}
use multi_agent_accelerator.Bridge.Service.Handlers.{accel_claim, accel_claim_resp, accel_send}
use multi_agent_accelerator.Bridge.Service.State.{Service, with_ads, with_pending}
use multi_agent_accelerator.Bridge.Status.{StatusAgent, started}
use multi_agent_accelerator.Ncache.{add_resources}
use multi_agent_accelerator.Pending.{get_ids}
use multi_agent_accelerator.Pending.Bridge.{alternative_eq, bridge_variant, claim_pending_msg}
use multi_agent_accelerator.Prelude.{
  List, Text, [], codes, false, map, none, refl, set, some, true, ◌++◌, ◌∷◌, ◌≡◌,
}
use multi_agent_accelerator.Resource.{Header, sw_clid, sw_fid, stringify}
use multi_agent_accelerator.Tests.Frames.{
  Frame, bool_frame, frames, text, ulong_frame, ushort_frame,
}
use multi_agent_accelerator.Tests.Nodes.{node_of, three_nodes}
use multi_agent_accelerator.Tests.Resources.{any_gemm, any_gemm-IsCanonical, gemm}
use multi_agent_accelerator.Tests.Sorting.{insertion_sort}
use multi_agent_accelerator.Wire.{add_section, add_string_top, add_strings}
use multi_agent_accelerator.Wire.Sections.{bools, message}
use multi_agent_accelerator.Wire.Frames.{
  get_section, pop_elements, pop_frames, pop_typ, read_section, read_sections, skip_section,
}

abbrev pub process : Text
process = codes "p"

abbrev pub lib_id : Text
lib_id = codes "lib"

abbrev pub acc_id : Text
acc_id = codes "acc"

abbrev idle : StatusAgent
idle = record { addr = none; state = started; state_updated = false }

-- An entry with every header.
abbrev pub gemm_entry : List (Header × Text)
gemm_entry = map (λ h. (h, any_gemm h)) header_order

pub gemm_entry-Finds : Finds gemm_entry any_gemm
gemm_entry-Finds = (refl, (refl, (refl, (refl, (refl, (refl, (refl, (refl, (refl, tt)))))))))

-- Where the class id is missing, the function id is found.
class_missing : first_at sw_clid ((sw_fid, codes "1") ∷ []) ≡ some (codes "1")
class_missing = refl

abbrev pub config : Configfile
config = (codes "gemm", gemm_entry) ∷ []

-- One process, which has started.
abbrev processes : List (Text × AdsState)
processes = (process, record { active = true; final = false; claims = [] }) ∷ []

abbrev pub service : Service frames
service = record {
  stop = false;
  job_id = codes "job";
  config_file = config;
  node_manager = three_nodes;
  pending_msgs = [];
  data_steering = processes;
  stat_agent = idle;
  init_bridge_calls = 0;
  bridge_checklist = (codes "host", false) ∷ [];
}

abbrev pub header_of : AccelCtrl → Text → AccelHeader
header_of method tag = record {
  requesting_id = some process;
  method = method;
  requesting_nex = some (codes "2");
  tag = tag;
}

abbrev pub one_string : Text → List Frame
one_string s = ushort_frame 0 ∷ ulong_frame 1 ∷ text s ∷ []

abbrev claimed : List (Text × AdsState)
claimed =
    (
      process,
      record {
        active = true;
        final = false;
        claims = (lib_id, record { is_active = true; acc_id = acc_id; node_id = 2 }) ∷ [];
      },
    )
    ∷ []

abbrev pub claiming : Service frames
claiming = with_ads frames claimed (
    with_pending frames
      ((acc_id, claim_pending_msg (record { key = lib_id; requesting_id = process }) []) ∷ [])
      service)

ran : Unit {0}
unfolding get_section read_section pop_typ pop_elements get_function_header get_function_entry
    stringify get_ids get_nexus_id stoul stoul_digits find_adss find_create_adss get_nex_id
    get_accel_id post_init init_anode add_resources skip_section read_sections pop_frames
    reverse_lookup add_strings add_section
ran = tt

accel_claim-IsRegistered_example :
    (s' : Service frames) × (accel_claim frames insertion_sort acc_id
        (header_of AccelCtrl.claim lib_id)
        (one_string (codes "gemm"))
        service
      ≡ some ([], s'))
    × IsRegistered frames acc_id lib_id process s'
unfolding ran
accel_claim-IsRegistered_example =
    accel_claim-IsRegistered frames insertion_sort acc_id process (codes "gemm") any_gemm gemm_entry
      (header_of AccelCtrl.claim lib_id) (one_string (codes "gemm")) service refl refl refl
      gemm_entry-Finds any_gemm-IsCanonical.writable refl refl

claim_key-waits : get_ids bridge_variant acc_id claiming.pending_msgs ≡ (lib_id, process)
unfolding ran
claim_key-waits = refl

claiming-IsRegistered : IsRegistered frames acc_id lib_id process claiming
claiming-IsRegistered = record {
  waits = claim_key-waits;
  claimed = record {
    state = record {
      active = true;
      final = false;
      claims = (lib_id, record { is_active = true; acc_id = acc_id; node_id = 2 }) ∷ [];
    };
    header = record { is_active = true; acc_id = acc_id; node_id = 2 };
    state_found = refl;
    header_found = refl;
    same_id = refl;
  };
}

accel_claim_resp-answers_example :
    (s' : Service frames) × (a : AdsState) × (accel_claim_resp frames
        (header_of AccelCtrl.claim_response acc_id)
        (ushort_frame 6 ∷ ulong_frame 1 ∷ bool_frame true ∷ [])
        claiming
      ≡ some (
        message frames
              (process ∷ codes "__ACCEL_RESPONSE__" ∷ placeholder ∷ lib_id ∷ [])
              (bools (true ∷ []) ∷ [])
            ∷ [],
        s',
      ))
    × (find_adss process s'.data_steering ≡ some a)
    × (get_accel_id lib_id a ≡ acc_id)
    × (get_nex_id lib_id a ≡ 2)
    × (is_claim_active lib_id a ≡ true)
unfolding ran
accel_claim_resp-answers_example =
    accel_claim_resp-answers frames acc_id lib_id process 2 true
      (header_of AccelCtrl.claim_response acc_id)
      (ushort_frame 6 ∷ ulong_frame 1 ∷ bool_frame true ∷ []) claiming claiming-IsRegistered refl
      refl refl

abbrev pub holder : AdsState
holder = record {
  active = true;
  final = false;
  claims = (lib_id, record { is_active = true; acc_id = acc_id; node_id = 2 }) ∷ [];
}

accel_send-forwards_example :
    (s' : Service frames) × (accel_send frames
        (codes "k")
        (header_of AccelCtrl.send lib_id)
        (one_string lib_id ++ text (codes "data") ∷ [])
        claiming
      ≡ some ([], s'))
    × (s'.node_manager
        ≡ set claiming.node_manager (get_nex_id lib_id holder) (
            send_to frames
              (text (codes "__NEX_SNDDATA__")
                ∷ text (codes "k")
                ∷ add_string_top frames (get_accel_id lib_id holder) (text (codes "data") ∷ []))
              (node_of 2 (gemm ∷ []))))
    × (get_ids bridge_variant (codes "k") s'.pending_msgs ≡ (lib_id, process))
unfolding ran
accel_send-forwards_example =
    accel_send-forwards frames (codes "k") process lib_id holder (node_of 2 (gemm ∷ [])) 0 1
      (ushort_frame 0) (ulong_frame 1) (text (codes "data") ∷ []) (header_of AccelCtrl.send lib_id)
      claiming refl refl refl refl refl refl
