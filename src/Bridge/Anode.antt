-- ===== src/Bridge/Anode.antt =====
-- bridge_agent/src/anode.cc and anode_manager.cc: the nexuses that a bridge is connected to, each
-- with a copy of its manifest, and the choice of the one that a claim goes to.
use multi_agent_accelerator.Bridge.Protocol.{start_nexus_request}
use multi_agent_accelerator.Ncache.{add_resources, can_completely_support, can_support}
use multi_agent_accelerator.Prelude.{
  Bool, List, Option, Text, [], all_of, codes, false, get_elem?, if◌then◌else◌, nat_eq, none, set,
  some, suc, true, ℕ, ◌%◌, ◌++◌, ◌+◌, ◌==◌, ◌>>=◌, ◌∷◌,
}
use multi_agent_accelerator.Resource.{Desc}
use multi_agent_accelerator.Wire.{Multipart, add_bool, add_string, finalize}
pub mod Recommend
pub mod Claim

abbrev pub front_of : List (ℕ × ℕ) → Option ℕ
front_of [] = none
front_of (c ∷ rest) = some c.0

module _ {Frame : Type 0} (m : Multipart Frame) where
  -- `anode`, less its socket: the messages sent through it are kept in their order.
  pub record Anode : Type 0 where
    pub is_local : Bool
    pub active : Bool
    pub outstanding_msg_cnt : ℕ
    pub job_id : Text
    pub rx_id : Text
    pub bridge_parms : Option Text
    pub ncache : List Desc
    pub sent : List (List Frame)

  unfoldable pub send_to : List Frame → Anode → Anode
  send_to msg an = record {
    is_local = an.is_local;
    active = an.active;
    outstanding_msg_cnt = an.outstanding_msg_cnt;
    job_id = an.job_id;
    rx_id = an.rx_id;
    bridge_parms = an.bridge_parms;
    ncache = an.ncache;
    sent = an.sent ++ msg ∷ [];
  }

  unfoldable pub pre_init : Text → Anode → Anode
  pre_init key an =
      let zb = start_nexus_request m (codes "__REM_JINIT__") key in
      let zb1 = add_bool m an.is_local (add_string m an.job_id zb) in
      let zb2 : List Frame = elim an.bridge_parms [
        | some parms ↦ add_string m parms (add_bool m true zb1)
        | none ↦ add_bool m false zb1
      ] in
      send_to (finalize m zb2) an

  unfoldable pub request_manifest : Text → Anode → Anode
  request_manifest key an =
      send_to (finalize m (start_nexus_request m (codes "__REM_MANIFEST__") key)) an

  -- `anode::make_claim`; the counter is a `size_t`
  unfoldable pub anode_make_claim : Text → Text → Anode → Anode
  anode_make_claim key claim an =
      let zb = start_nexus_request m (codes "__REM_CLAIM__") key in
      let an' = send_to (finalize m (add_string m [] (add_string m claim zb))) an in
      record {
        is_local = an'.is_local;
        active = an'.active;
        outstanding_msg_cnt = (an'.outstanding_msg_cnt + 1) % 18446744073709551616;
        job_id = an'.job_id;
        rx_id = an'.rx_id;
        bridge_parms = an'.bridge_parms;
        ncache = an'.ncache;
        sent = an'.sent;
      }

  -- `anode::can_support`: 2 is never what the cache answers without the subsystem's ids.
  unfoldable pub anode_can_support : Text × Text → Option (Text × Text) → Anode → Bool
  anode_can_support hw_id hw_ss_id an = elim hw_ss_id [
    | some ss ↦ can_support hw_id.0 hw_id.1 (some ss.0) (some ss.1) an.ncache == 1
    | none ↦ can_support hw_id.0 hw_id.1 none none an.ncache == 2
  ]

  abbrev pub activated : Text → List Desc → Anode → Anode
  activated nex_id ncache an = record {
    is_local = an.is_local;
    active = true;
    outstanding_msg_cnt = an.outstanding_msg_cnt;
    job_id = an.job_id;
    rx_id = nex_id;
    bridge_parms = an.bridge_parms;
    ncache = ncache;
    sent = an.sent;
  }

  -- `set_rx_id`, `set_nxcache_entries` and `activate` of `anode_manager::post_init`
  unfoldable pub init_anode : Text → List Text → Anode → Option Anode
  init_anode nex_id clines an = do
    ncache ← add_resources clines an.ncache
    some (activated nex_id ncache an)

  unfoldable pub is_fully_inited : List Anode → Bool
  is_fully_inited anodes = all_of (λ an. an.active) anodes

  -- A node that does not exist is reported, and nothing changes.
  unfoldable pub post_init : ℕ → Text → List Text → List Anode → Option (List Anode)
  post_init node_idx nex_id clines anodes = elim (get_elem? anodes node_idx) [
    | none ↦ some anodes
    | some an ↦ do an' ← init_anode nex_id clines an; some (set anodes node_idx an')
  ]

  -- `at` throws for a node that does not exist.
  unfoldable pub send_data : ℕ → List Frame → List Anode → Option (List Anode)
  send_data node_idx msg anodes = do
    an ← get_elem? anodes node_idx
    some (set anodes node_idx (send_to msg an))

  -- The loop of `_recommend_node`: the nodes that support the claim, with their congestion.
  unfoldable pub candidates : Text → ℕ → List Anode → Option (List (ℕ × ℕ))
  candidates claim_request i [] = some []
  candidates claim_request i (an ∷ anodes) = do
    supported ← can_completely_support claim_request an.ncache
    table ← candidates claim_request (suc i) anodes
    some (if supported then (i, an.outstanding_msg_cnt) ∷ table else table)

  abbrev pub send_claim : Text → Text → List Anode → Option ℕ → Bool × List Anode
  send_claim acc_id claim_req anodes none = (false, anodes)
  send_claim acc_id claim_req anodes (some i) = elim (get_elem? anodes i) [
    | none ↦ (false, anodes)
    | some an ↦ (true, set anodes i (anode_make_claim acc_id claim_req an))
  ]

  module _ (sort : List (ℕ × ℕ) → List (ℕ × ℕ)) where
    unfoldable pub recommend_node : Text → List Anode → Option (Option ℕ)
    recommend_node claim_request anodes = do
      table ← candidates claim_request 0 anodes
      some (front_of (sort table))

    -- The status, 0 or -1, as whether the claim went out.
    unfoldable pub make_claim : Text → Text → List Anode → Option (Bool × List Anode)
    make_claim acc_id claim_req anodes = do
      node ← recommend_node claim_req anodes
      some (send_claim acc_id claim_req anodes node)
