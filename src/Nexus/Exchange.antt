-- ===== src/Nexus/Exchange.antt =====
-- accelerator_agent/src/res_mgr_frontend.cc: two nexuses tell each other their lines.
use multi_agent_accelerator.Jobs.Updates.{add_data_at}
use multi_agent_accelerator.Nexus.Caches.{
  NexusCaches, cache_answer, find_create_nexcache, make_nexus, res_nxuptcache,
}
use multi_agent_accelerator.Nexus.Trackers.{get_nex_cache_data}
use multi_agent_accelerator.Prelude.{
  Bool, List, Option-cases, inl, inr, Text, [], arith, codes, false, find, find-emplace_self,
  get_elem?, if◌then◌else◌, length, list_eq, nat_eq, refl, some, true, ℕ, ◌==◌, ◌∷◌, ◌≡◌, ==_iff,
}
use multi_agent_accelerator.Split.{split_str}
use multi_agent_accelerator.Wire.{Multipart, add_bool, add_bools, add_string, add_strings}
use multi_agent_accelerator.Wire.Frames.{get_bools, get_strings}
use multi_agent_accelerator.Wire.RoundTrip.{get_bools-message, get_strings-message}
use multi_agent_accelerator.Wire.Sections.{FitsUlong, Section, bools, message, strings}

-- The sections of an update: whether an answer is asked for, the sender's address, and its lines.
abbrev pub update_sections : Bool → Text → List Text → List Section
update_sections respond addr cache_lines =
    bools (respond ∷ []) ∷ strings (addr ∷ []) ∷ strings cache_lines ∷ []

-- The lines are kept for the nexus of the address.
abbrev pub Keeps : Text → List Text → ℕ → NexusCaches → Type 0
Keeps addr cache_lines n s =
    (find addr s.nexus_cache ≡ some n) × ((s.nexuses n).as_is ≡ cache_lines)

find_create_nexcache-found :
    (addr name : Text) (s : NexusCaches)
    → get_elem? (split_str b'.' addr) 0 ≡ some name
    → (n : ℕ) × (known : Bool) × (s' : NexusCaches) × (find_create_nexcache addr s
        ≡ some (n, known, s'))
      × (find addr s'.nexus_cache ≡ some n)
      × (s'.hw_list ≡ s.hw_list)
unfolding find_create_nexcache
find_create_nexcache-found addr name s named = elim (Option-cases (find addr s.nexus_cache)) [
  | inl e ↦ (
    s.made,
    false,
    make_nexus name addr s,
    rw (find_create_nexcache, e, named) refl,
    rw (find-emplace_self addr s.made s.nexus_cache, e) refl,
    refl,
  )
  | inr (n, e) ↦ (n, true, s, rw (find_create_nexcache, e) refl, e, refl)
]

same_ptr : (n : ℕ) → (n == n) ≡ true
same_ptr n = (==_iff n n).1 refl

module _ {Frame : Type 0} (m : Multipart Frame) where
  abbrev request : Bool → Text → List Text → List Frame
  request respond addr cache_lines = message m [] (update_sections respond addr cache_lines)

  cache_answer-message :
      (s : NexusCaches)
      → cache_answer m s
        ≡ message m (s.current_mpirun_id ∷ s.current_proc_id ∷ codes "__NEX_UPDATECACHE__" ∷ []) (
            update_sections false (s.nexuses s.home_nexus).host_addr (get_nex_cache_data s.hw_list))
  unfolding add_bool add_bools add_string add_strings
  cache_answer-message s = refl

  -- A nexus that is told lines from an address ends up with them for the address, whether or not it
  -- knew it. It answers exactly if it is asked to, the nexus of the address and no other: with its
  -- own lines and its own address, and without asking for an answer in turn. The address has a
  -- first part, and the lines can be counted in 64 bits.
  pub res_nxuptcache-Keeps :
      (respond : Bool) (addr name : Text) (cache_lines : List Text) (s : NexusCaches)
      → get_elem? (split_str b'.' addr) 0 ≡ some name
      → FitsUlong (length cache_lines)
      → (n : ℕ) × (s' : NexusCaches) × (res_nxuptcache m
            (message m [] (update_sections respond addr cache_lines))
            s
          ≡ some (
            s',
            if respond
                then (
                  n,
                  message m
                      (s'.current_mpirun_id ∷ s'.current_proc_id ∷ codes "__NEX_UPDATECACHE__" ∷ [])
                      (update_sections false
                        (s'.nexuses s'.home_nexus).host_addr
                        (get_nex_cache_data s.hw_list)),
                )
                  ∷ []
                else [],
          ))
        × Keeps addr cache_lines n s'
  unfolding res_nxuptcache
  res_nxuptcache-Keeps respond addr name cache_lines s named fits =
      let (n, known, s1, found, is_there, same) = find_create_nexcache-found addr name s named in
      let flags : get_bools m 0 0 (request respond addr cache_lines) ≡ some (respond ∷ []) =
        get_bools-message m [] [] (respond ∷ []) (strings (addr ∷ []) ∷ strings cache_lines ∷ []) tt
          (omega arith) in
      let addrs : get_strings m 0 1 (request respond addr cache_lines) ≡ some (addr ∷ []) =
        get_strings-message m [] (bools (respond ∷ []) ∷ []) (addr ∷ []) (strings cache_lines ∷ [])
          (omega arith, tt) (omega arith) in
      let lines : get_strings m 0 2 (request respond addr cache_lines) ≡ some cache_lines =
        get_strings-message m [] (bools (respond ∷ []) ∷ strings (addr ∷ []) ∷ []) cache_lines []
          (omega arith, (omega arith, tt)) fits in
      (
        n,
        record s1 { nexuses = add_data_at n cache_lines s1.nexuses },
        rw (flags, addrs, lines, found)
            (rw
              (
                cache_answer-message (record s1 { nexuses = add_data_at n cache_lines s1.nexuses }),
                same,
              )
              refl),
        (is_there, rw (same_ptr n) refl),
      )
