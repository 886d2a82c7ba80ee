-- ===== src/Jobs/Sharing.antt =====
-- accelerator_agent/src/job_interface.cc, `update_nexus`: how often a nexus is told the lines.
use multi_agent_accelerator.Jobs.Cache.{NexCache}
use multi_agent_accelerator.Jobs.Interface.{JobInterface}
use multi_agent_accelerator.Jobs.Ranks.{RegistryEntry}
use multi_agent_accelerator.Jobs.Recommendation.{Partition, Partitions}
use multi_agent_accelerator.Jobs.Updates.{
  add_data_at, is_this_host, is_updated, send_update_request, send_update_requests, update_message,
  update_nexus,
}
use multi_agent_accelerator.Prelude.{
  All, All-append, All-lookup, All-map, All-of_mem, Any-append_right, Bool, Bool-cases, List, Text,
  [], codes, false, if◌then◌else◌, inl, inr, nat_eq, not, refl, some, sym, true, ℕ, ◌++◌, ◌==◌,
  ◌||◌, ◌∙◌, ◌∷◌, ◌≡◌,
}
use multi_agent_accelerator.Wire.{
  Multipart, add_bool, add_bools, add_string, add_strings, zmsg_builder,
}
use multi_agent_accelerator.Wire.Sections.{bools, message, strings}

-- The names and the addresses of the nexuses are the same.
abbrev pub AreSame : (ℕ → NexCache) → (ℕ → NexCache) → Type 0
AreSame nexuses nexuses' =
    (n : ℕ)
    → ((nexuses' n).host_name ≡ (nexuses n).host_name)
      × ((nexuses' n).host_addr ≡ (nexuses n).host_addr)

-- The nexus has been told, or is this one.
abbrev pub is_done : Text → (ℕ → NexCache) → RegistryEntry → Bool
is_done hostname nexuses en = en.updated || is_this_host hostname nexuses en

add_data_at-AreSame :
    (local : ℕ) (this_cache : List Text) (nexuses : ℕ → NexCache)
    → AreSame nexuses (add_data_at local this_cache nexuses)
add_data_at-AreSame local this_cache nexuses n = elim (Bool-cases (n == local)) [
  | inl e ↦ rw e (refl, refl)
  | inr e ↦ rw e (refl, refl)
]

is_done-same :
    (hostname : Text) (nexuses nexuses' : ℕ → NexCache) (en : RegistryEntry)
    → AreSame nexuses nexuses'
    → is_done hostname nexuses' en ≡ is_done hostname nexuses en
is_done-same hostname nexuses nexuses' en same = rw (same en.nex).0 refl

or_true : (b : Bool) → (b || true) ≡ true
or_true true = refl
or_true false = refl

module _ {Frame : Type 0} (m : Multipart Frame) (hostname : Text) where
  -- One message for each nexus that has not been told and is not this one.
  abbrev pub update_messages :
      List Frame → (ℕ → NexCache) → List RegistryEntry → List (ℕ × List Frame)
  update_messages msg nexuses [] = []
  update_messages msg nexuses (en ∷ entries) =
      let rest = update_messages msg nexuses entries in
      if not (is_done hostname nexuses en) then (en.nex, msg) ∷ rest else rest

  update_messages-done :
      (msg : List Frame) (nexuses : ℕ → NexCache) (entries : List RegistryEntry)
      → All (λ en. is_done hostname nexuses en ≡ true) entries
      → update_messages msg nexuses entries ≡ []
  update_messages-done msg nexuses [] h = refl
  update_messages-done msg nexuses (en ∷ entries) h =
      rw h.0 (update_messages-done msg nexuses entries h.1)

  update_messages-cons :
      (msg : List Frame) (nexuses : ℕ → NexCache) (en : RegistryEntry)
      (entries : List RegistryEntry)
      → update_messages msg nexuses (en ∷ []) ++ update_messages msg nexuses entries
        ≡ update_messages msg nexuses (en ∷ entries)
  update_messages-cons msg nexuses en entries = elim (Bool-cases (is_done hostname nexuses en)) [
    | inl d ↦ rw d refl
    | inr d ↦ rw d refl
  ]

  update_messages-same :
      (msg : List Frame) (nexuses nexuses' : ℕ → NexCache) (entries : List RegistryEntry)
      → AreSame nexuses nexuses'
      → update_messages msg nexuses' entries ≡ update_messages msg nexuses entries
  update_messages-same msg nexuses nexuses' [] same = refl
  update_messages-same msg nexuses nexuses' (en ∷ entries) same =
      rw ((same en.nex).0, update_messages-same msg nexuses nexuses' entries same) refl

  module _ (global_rank : Text) (this_cache : List Text) (job : JobInterface) (local : ℕ) where
    abbrev sent_message : (ℕ → NexCache) → List Frame
    sent_message nexuses = update_message m global_rank this_cache (nexuses local).host_addr job

    sent_message-same :
        (nexuses nexuses' : ℕ → NexCache)
        → AreSame nexuses nexuses'
        → sent_message nexuses' ≡ sent_message nexuses
    sent_message-same nexuses nexuses' same = rw (same local).1 refl

    send_update_request-ends :
        (entry : RegistryEntry) (nexuses : ℕ → NexCache)
        → job.local_nex_cache ≡ some local
        → (nexuses' : ℕ → NexCache) × (entry' : RegistryEntry) × (send_update_request m hostname
              global_rank this_cache job entry nexuses
            ≡ some (nexuses', entry', update_messages (sent_message nexuses) nexuses (entry ∷ [])))
          × AreSame nexuses nexuses'
          × (is_done hostname nexuses entry' ≡ true)
    unfolding send_update_request
    send_update_request-ends entry nexuses has =
        elim (Bool-cases (is_this_host hostname nexuses entry)) [
          | inl h ↦ (
            add_data_at local this_cache nexuses,
            entry,
            rw (h, or_true entry.updated, has) refl,
            add_data_at-AreSame local this_cache nexuses,
            rw h (or_true entry.updated),
          )
          | inr h ↦ elim (Bool-cases entry.updated) [
            | inl u ↦ (nexuses, entry, rw (u, h) refl, λ n. (refl, refl), rw u refl)
            | inr u ↦ (
              nexuses,
              record entry { updated = true },
              rw (u, h, has) refl,
              λ n. (refl, refl),
              refl,
            )
          ]
        ]

    send_update_requests-ends :
        (entries : List RegistryEntry) (nexuses : ℕ → NexCache)
        → job.local_nex_cache ≡ some local
        → (nexuses' : ℕ → NexCache) × (entries' : List RegistryEntry) × (send_update_requests m
              hostname global_rank this_cache job entries nexuses
            ≡ some (nexuses', entries', update_messages (sent_message nexuses) nexuses entries))
          × AreSame nexuses nexuses'
          × All (λ en. is_done hostname nexuses en ≡ true) entries'
    unfolding send_update_requests
    send_update_requests-ends [] nexuses has = (nexuses, [], refl, λ n. (refl, refl), tt)
    send_update_requests-ends (entry ∷ entries) nexuses has =
        let (nexuses1, entry', one, same1, done1) = send_update_request-ends entry nexuses has in
        let (nexuses2, entries', more, same2, done2) =
          send_update_requests-ends entries nexuses1 has in
        (
          nexuses2,
          entry' ∷ entries',
          rw
              (
                one,
                more,
                sent_message-same nexuses nexuses1 same1,
                update_messages-same (sent_message nexuses) nexuses nexuses1 entries same1,
                update_messages-cons (sent_message nexuses) nexuses entry entries,
              )
              refl,
          (λ n. ((same2 n).0 ∙ (same1 n).0, (same2 n).1 ∙ (same1 n).1)),
          (
            done1,
            All-map (λ en d. sym (is_done-same hostname nexuses nexuses1 en same1) ∙ d) entries'
                done2,
          ),
        )

    update_nexus-ends :
        (partition : Partition) (nexuses : ℕ → NexCache)
        → Partitions partition
        → job.local_nex_cache ≡ some local
        → (nexuses' : ℕ → NexCache) × (job' : JobInterface) × (update_nexus m hostname global_rank
              this_cache partition job nexuses
            ≡ some (
              nexuses',
              job',
              update_messages
                  (sent_message nexuses)
                  nexuses
                  (partition is_updated job.rank_registry).1,
            ))
          × All (λ en. is_done hostname nexuses' en ≡ true) job'.rank_registry
          × (job'.local_nex_cache ≡ some local)
    unfolding update_nexus
    update_nexus-ends partition nexuses splits has =
        let groups = partition is_updated job.rank_registry in
        let (nexuses', entries, runs, same, done) =
          send_update_requests-ends groups.1 nexuses has in
        (
          nexuses',
          record job { rank_registry = groups.0 ++ entries },
          rw runs refl,
          All-append (λ en. is_done hostname nexuses' en ≡ true) groups.0 entries
              (All-map (λ en u. rw u refl) groups.0
                (splits.front_holds is_updated job.rank_registry))
              (All-map (λ en d. is_done-same hostname nexuses nexuses' en same ∙ d) entries done),
          has,
        )

  -- With the nexus of this host known, `update_nexus` ends. Of the nexuses behind those that have
  -- been told, each that is not this one gets one message, with the local nexus's address and the
  -- lines, and asking for an answer. A second call, with
  -- whatever rank and lines, ends as well and sends nothing. `std::partition` makes two groups of
  -- the same elements.
  pub update_nexus-once :
      (partition : Partition) (nexuses : ℕ → NexCache) (job : JobInterface) (local : ℕ)
      (global_rank global_rank' : Text) (this_cache this_cache' : List Text)
      → Partitions partition
      → job.local_nex_cache ≡ some local
      → (nexuses' : ℕ → NexCache) × (job' : JobInterface) × (update_nexus m hostname global_rank
            this_cache partition job nexuses
          ≡ some (
            nexuses',
            job',
            update_messages
                (message m (job.job_id ∷ global_rank ∷ codes "__NEX_UPDATECACHE__" ∷ []) (
                  bools (true ∷ [])
                  ∷ strings ((nexuses local).host_addr ∷ [])
                  ∷ strings this_cache
                  ∷ []))
                nexuses
                (partition is_updated job.rank_registry).1,
          ))
        × ((nexuses'' : ℕ → NexCache) × (job'' : JobInterface) × (update_nexus m hostname
                global_rank' this_cache' partition job' nexuses'
              ≡ some (nexuses'', job'', [])))
  unfolding add_bool add_bools add_string add_strings zmsg_builder
  update_nexus-once partition nexuses job local rank rank' cache cache' splits has =
      let (nexuses', job', once, done, has') =
        update_nexus-ends rank cache job local partition nexuses splits has in
      let (nexuses'', job'', again, done', has'') =
        update_nexus-ends rank' cache' job' local partition nexuses' splits has' in
      let rest = (partition is_updated job'.rank_registry).1 in
      let all_done =
        All-of_mem (λ en. is_done hostname nexuses' en ≡ true) rest
          (λ x k.
            All-lookup (λ en. is_done hostname nexuses' en ≡ true) job'.rank_registry x done
              ((splits.keeps is_updated job'.rank_registry x).0
                (Any-append_right _ (partition is_updated job'.rank_registry).0 rest k))) in
      (
        nexuses',
        job',
        once,
        (
          nexuses'',
          job'',
          again
              ∙ rw
                  (update_messages-done (sent_message rank' cache' job' local nexuses') nexuses'
                    rest all_done)
                  refl,
        ),
      )
