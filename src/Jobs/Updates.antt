-- ===== src/Jobs/Updates.antt =====
-- accelerator_agent/src/job_interface.cc, `update_nexus`: the nexuses of a job are told the lines of
-- this one. The nexuses are objects that the registry points to.
use multi_agent_accelerator.Jobs.Cache.{NexCache, add_cache_data}
use multi_agent_accelerator.Jobs.Interface.{JobInterface}
use multi_agent_accelerator.Jobs.Ranks.{RegistryEntry}
use multi_agent_accelerator.Jobs.Recommendation.{Partition}
use multi_agent_accelerator.Prelude.{
  Bool, List, Option, Text, [], codes, if◌then◌else◌, list_eq, nat_eq, not, some, true, ℕ, ◌++◌,
  ◌==◌, ◌>>=◌, ◌||◌, ◌∷◌,
}
use multi_agent_accelerator.Wire.{
  Multipart, add_bool, add_string, add_strings, finalize, zmsg_builder,
}

abbrev pub is_updated : RegistryEntry → Bool
is_updated entry = entry.updated

abbrev pub add_data_at : ℕ → List Text → (ℕ → NexCache) → ℕ → NexCache
add_data_at nptr this_cache nexuses n =
    if n == nptr then add_cache_data this_cache (nexuses n) else nexuses n

abbrev pub is_this_host : Text → (ℕ → NexCache) → RegistryEntry → Bool
is_this_host hostname nexuses entry = hostname == (nexuses entry.nex).host_name

module _ {Frame : Type 0} (m : Multipart Frame) where
  abbrev pub update_message : Text → List Text → Text → JobInterface → List Frame
  update_message global_rank this_cache local_addr job = finalize m (
      add_strings m this_cache (
        add_string m local_addr (
          add_bool m true
            (zmsg_builder m (job.job_id ∷ global_rank ∷ codes "__NEX_UPDATECACHE__" ∷ [])))))

module _ {Frame : Type 0} (m : Multipart Frame) (hostname global_rank : Text)
    (this_cache : List Text) where
  -- The lambda `send_update_request`; the local nexus is a pointer that is null at first.
  unfoldable pub send_update_request :
      JobInterface
      → RegistryEntry
      → (ℕ → NexCache)
      → Option ((ℕ → NexCache) × RegistryEntry × List (ℕ × List Frame))
  send_update_request job entry nexuses =
      if not (entry.updated || is_this_host hostname nexuses entry)
      then (do
        local ← job.local_nex_cache
        some (
          nexuses,
          record entry { updated = true },
          (entry.nex, update_message m global_rank this_cache (nexuses local).host_addr job) ∷ [],
        ))
      else if is_this_host hostname nexuses entry
      then (do local ← job.local_nex_cache; some (add_data_at local this_cache nexuses, entry, []))
      else some (nexuses, entry, [])

  unfoldable pub send_update_requests :
      JobInterface
      → List RegistryEntry
      → (ℕ → NexCache)
      → Option ((ℕ → NexCache) × List RegistryEntry × List (ℕ × List Frame))
  unfolding send_update_request
  send_update_requests job [] nexuses = some (nexuses, [], [])
  send_update_requests job (entry ∷ entries) nexuses = do
    (nexuses1, entry', sent) ← send_update_request job entry nexuses
    (nexuses2, entries', rest) ← send_update_requests job entries nexuses1
    some (nexuses2, entry' ∷ entries', sent ++ rest)

  unfoldable pub update_nexus :
      Partition
      → JobInterface
      → (ℕ → NexCache)
      → Option ((ℕ → NexCache) × JobInterface × List (ℕ × List Frame))
  unfolding send_update_requests
  update_nexus partition job nexuses = do
    let groups = partition is_updated job.rank_registry
    (nexuses', entries, sent) ← send_update_requests job groups.1 nexuses
    some (nexuses', record job { rank_registry = groups.0 ++ entries }, sent)
