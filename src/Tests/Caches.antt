-- ===== src/Tests/Caches.antt =====
-- accelerator_agent/src/res_mgr_frontend.cc at a nexus that is told the lines of one that it does
-- not know.
use multi_agent_accelerator.Jobs.Cache.{NexCache}
use multi_agent_accelerator.Nexus.Caches.{NexusCaches, res_nxuptcache}
use multi_agent_accelerator.Nexus.Exchange.{Keeps, res_nxuptcache-Keeps, update_sections}
use multi_agent_accelerator.Nexus.Trackers.{get_nex_cache_data}
use multi_agent_accelerator.Prelude.{[], arith, codes, refl, some, true, false, ℕ, ◌∷◌, ◌≡◌}
use multi_agent_accelerator.Split.{split_str}
use multi_agent_accelerator.Tests.Frames.{frames}
use multi_agent_accelerator.Wire.Sections.{message}

abbrev home : NexCache
home = record { host_name = codes "a"; host_addr = codes "a.net:1"; as_is = [] }

abbrev at_home : NexusCaches
at_home = record {
  current_mpirun_id = codes "j";
  current_proc_id = codes "0";
  home_nexus = 0;
  nexus_cache = (codes "a.net:1", 0) ∷ [];
  nexuses = λ n. home;
  made = 1;
  hw_list = [];
}

res_nxuptcache-Keeps_example :
    (n : ℕ) × (s' : NexusCaches) × (res_nxuptcache frames
        (message frames [] (update_sections true (codes "b.net:1") (codes "l" ∷ [])))
        at_home
      ≡ some (
        s',
        (
          n,
          message frames
              (s'.current_mpirun_id ∷ s'.current_proc_id ∷ codes "__NEX_UPDATECACHE__" ∷ [])
              (update_sections false
                (s'.nexuses s'.home_nexus).host_addr
                (get_nex_cache_data at_home.hw_list)),
        )
            ∷ [],
      ))
    × Keeps (codes "b.net:1") (codes "l" ∷ []) n s'
unfolding split_str
res_nxuptcache-Keeps_example =
    res_nxuptcache-Keeps frames true (codes "b.net:1") (codes "b") (codes "l" ∷ []) at_home refl
      (omega arith)
