-- ===== src/Lib.antt =====
-- A verification library of the platform's agents: an application's processes (runtime agents)
-- talk to a bridge agent on their host, each bridge to the nexuses (accelerator agents) of a job,
-- and each nexus to the virtualization agents that drive its devices. A nexus keeps the resources
-- of its devices as lines of text and sends them to the bridges; a bridge keeps a copy per nexus,
-- claims a function for a process at a nexus that supports it, and from then on carries the data
-- of the process there and back.
--
-- The modules follow the parts of the program. A function or class keeps its name; paths are from
-- the root of the repository.
-- Prelude: tests, lists, maps (std::map as an association list), the algorithms of the C++
-- library and of Boost.Range that the program calls (std::remove_if leaves the length as it is),
-- and lists without duplicates.
-- Split: split_str of utils/include/utils.h, with std::getline's end of text.
-- Resource: cached_resource_desc of utils/src/ncache_registry.cc, a descriptor as a function from
-- the headers of utils/include/config_components.h to texts. Resource.RoundTrip relates its two
-- directions. Resource.Logic is utils/src/resource_logic.cc.
-- Ncache: ncache_registry, the lines of a nexus in their order. Ncache.Support says what it
-- answers, Ncache.Manifest what a copy is.
-- Pending: pending_msg_registry of utils/include/pending_msg_reg.h, over any std::variant of
-- message types; Pending.Bridge is the bridge's variant.
-- Wire: zmsg_builder and zmsg_viewer of utils/src, a multipart message as the list of its frames.
-- What a frame is belongs to the ZeroMQ library and is a parameter, a record of encodings with
-- the law that each value is read back.
-- Bridge: the bridge agent. Status and Protocol are bridge_agent/api, Anode the nodes
-- (bridge_agent/src/anode.cc, anode_manager.cc), Ads the processes and their claims
-- (ads_state.cc, ads_registry.cc), Config the function entries of the host file, Service the
-- handlers of accel_service.cc over one state that each of them takes and returns.
-- Nexus: the accelerator agent. Trackers are the virtualization agents with their resources
-- (accelerator_agent/src/hw_tracker.cc), Frontend the handlers of res_mgr_frontend.cc and what
-- nexus_hub.cc sends for a reply. Nexus.Manifest relates the nexus to the bridges' copies,
-- Nexus.Path follows data from a process to an agent and back. Caches is what the nexus keeps of
-- the others and the handler by which it is told their lines, over their objects by number, and
-- Exchange about it; a request is what is left behind the header.
-- Jobs: the jobs of the accelerator agent. Entries and Config are the configuration file
-- (utils/src/config_components.cc), Cache what a nexus knows of another
-- (accelerator_agent/src/hw_nex_cache.cc), Ranks job_details.cc, Recommendation the round robin
-- engine (claim_subsys_base.cc), Interface job_interface.cc and the handler of
-- res_mgr_frontend.cc that gives out ids. A pointer to a nexus is a number, and what it points to
-- an argument. Constraints, Placement, Claiming, Unclaimed and Sections are about a function on
-- its way to a nexus, with the lemmas in Claims and Transmission. Updates is update_nexus, by
-- which a nexus tells the others its lines, and Sharing about how often it does.
-- Runtime: runtime_agent/src/mpi_proc_utils.cc, the packets between processes, and in Ranks the
-- requests for a rank (mpi_proc_impl.cc). Bounds and Fits are about their sizes.
-- Queue: concurrent_bounded_queue of utils/include as a step relation, each step one that the
-- holder of the mutex or a thread that takes it can make, and the loop of thread_manager.h that
-- hands results over.
-- Kernels: kernel_db.cc of virtualization_agent/common, the kernels that an agent knows by their
-- ids; Kernels.Clines is kernel_intf.cc, the lines that describe them.
-- Agent: virtualization_agent/common. The packets of a request and their generator
-- (generator_template.cc), Services and Requests the three services that hand the numbers of
-- packets on (basic_services.cc, system_services.cc, device_services.cc, collage.cc). The queues
-- between them are lists with a capacity. What the device manager answers and what a scan of
-- directories finds are arguments, and so is the first value of a packet's flag, which no
-- constructor sets. Agent.Consistency is about the counts that keep a packet, Agent.Stages and
-- Agent.Path follow a request through.
-- Tests: concrete inputs and runs.
--
-- Code that throws, or whose behaviour is undefined (front of an empty list, value of an empty
-- optional, a write through an end iterator), returns none. The one exception are the accessors
-- of cached_resource_desc in utils/include/ncache_registry.h: they have no return statement, and
-- are read as if they returned their field, since nothing of the resources works otherwise.
-- Numbers are natural numbers, so that a negative size of a packet does not occur; a number that
-- the code keeps in an int ends in none from 2 to the 31 on; a counter of 64 bits keeps its
-- modulus, and what is written into a frame of 64 bits is assumed to fit. Every loop is a
-- recursion on the list that it goes through, or on a count that is in the code; the one that
-- takes messages from the back has their number as its fuel. Random texts that a handler draws
-- are its arguments, and where a theorem needs a fresh one it says so. A handler runs as one
-- step, as the locks of the service make it; how threads are scheduled between the queues and the
-- handlers is not modelled. boost::sort and std::partition are parameters, with what they promise
-- of the order and the elements. A loop over the keys of a multimap has its length as fuel, since
-- each turn passes an entry at least.
--
-- Not modelled: sockets and processes, the JSON library (what it reads of a text is an argument;
-- in Bridge, a function entry is the multimap that was read), how a nexus starts a job
-- (_res_nxinitjob_), the settings of a virtualization agent and its scan for kernels, the client
-- library but for its packets, the device managers, and the copies of other projects' libraries.
pub mod Prelude
pub mod Pending
pub mod Split
pub mod Resource
pub mod Ncache
pub mod Wire
pub mod Agent
pub mod Jobs
pub mod Runtime
pub mod Bridge
pub mod Nexus
pub mod Queue
pub mod Kernels
mod Tests
