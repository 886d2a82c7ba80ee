-- ===== src/Nexus/Caches.antt =====
-- accelerator_agent/src/res_mgr_frontend.cc: what the nexus keeps of the others, and the message by
-- which one tells its lines to another. The messages sent are kept with the number of the nexus that
-- each goes to.
use multi_agent_accelerator.Jobs.Cache.{NexCache}
use multi_agent_accelerator.Jobs.Entries.{front}
use multi_agent_accelerator.Jobs.Updates.{add_data_at}
use multi_agent_accelerator.Nexus.Trackers.{HwTracker, get_nex_cache_data}
use multi_agent_accelerator.Prelude.{
  Bool, List, Option, Text, [], codes, emplace, false, find, get_elem?, if◌then◌else◌, list_eq,
  nat_eq, none, some, true, ℕ, ◌+◌, ◌==◌, ◌>>=◌, ◌∷◌,
}
use multi_agent_accelerator.Split.{split_str}
use multi_agent_accelerator.Wire.{
  Multipart, add_bool, add_string, add_strings, finalize, zmsg_builder,
}
use multi_agent_accelerator.Wire.Frames.{get_bools, get_strings}

-- `resmgr_frontend`: what the operations below read and write. The nexuses are objects by number, of
-- which `made` have been made.
pub record NexusCaches : Type 0 where
  pub current_mpirun_id : Text
  pub current_proc_id : Text
  pub home_nexus : ℕ
  pub nexus_cache : List (Text × ℕ)
  pub nexuses : ℕ → NexCache
  pub made : ℕ
  pub hw_list : List HwTracker

abbrev pub make_nexus : Text → Text → NexusCaches → NexusCaches
make_nexus rem_name rem_addr s = record s {
  nexus_cache = emplace rem_addr s.made s.nexus_cache;
  nexuses = λ n.
      if n == s.made
      then record { host_name = rem_name; host_addr = rem_addr; as_is = [] }
      else s.nexuses n;
  made = s.made + 1;
}

-- `_find_create_nexcache`; the name is the address up to its first dot.
unfoldable pub find_create_nexcache : Text → NexusCaches → Option (ℕ × Bool × NexusCaches)
find_create_nexcache rem_addr s = elim (find rem_addr s.nexus_cache) [
  | none ↦ (do
    rem_name ← get_elem? (split_str b'.' rem_addr) 0
    some (s.made, false, make_nexus rem_name rem_addr s))
  | some n ↦ some (n, true, s)
]

module _ {Frame : Type 0} (m : Multipart Frame) where
  abbrev pub cache_answer : NexusCaches → List Frame
  cache_answer s = finalize m (
      add_strings m (get_nex_cache_data s.hw_list) (
        add_string m (s.nexuses s.home_nexus).host_addr (
          add_bool m false (
            zmsg_builder m
              (s.current_mpirun_id ∷ s.current_proc_id ∷ codes "__NEX_UPDATECACHE__" ∷ [])))))

  -- `_res_nxuptcache_`
  unfoldable pub res_nxuptcache :
      List Frame → NexusCaches → Option (NexusCaches × List (ℕ × List Frame))
  unfolding find_create_nexcache
  res_nxuptcache req s = do
    flags ← get_bools m 0 0 req
    respond ← front flags
    addrs ← get_strings m 0 1 req
    req_addr ← front addrs
    cache_lines ← get_strings m 0 2 req
    (n, already_exists, s1) ← find_create_nexcache req_addr s
    let s2 = record s1 { nexuses = add_data_at n cache_lines s1.nexuses }
    some (s2, if respond then (n, cache_answer s2) ∷ [] else [])
