-- ===== src/Runtime/Ranks.antt =====
-- runtime_agent/src/mpi_proc_impl.cc: how a process is given a rank for a claim, by the process with
-- rank zero. Sending and the wait for a message are left out: what is sent is returned.
use multi_agent_accelerator.Prelude.{
  Option, Text, [], if◌then◌else◌, nat_eq, none, some, ℕ, ◌&&◌, ◌+◌, ◌==◌, ◌>>=◌, ◌∷◌,
}
use multi_agent_accelerator.Runtime.{
  Mpi, PktViewer, as_int, form_header, get_groupid, get_single_data, pkt_builder, push_back_data,
  push_back_hdr, response,
}

-- `mpi_proc_impl`: the counter of `rank_zero_vars`, and the mailbox with the header that is waited
-- for, its tags, and the message.
pub record ProcImpl : Type 0 where
  pub claimable_rank : ℕ
  pub awaited : Option (ℕ × ℕ)
  pub mail : Option PktViewer

abbrev pub claim_rank : ProcImpl → ℕ × ProcImpl
claim_rank s = (s.claimable_rank, record s { claimable_rank = s.claimable_rank + 1 })

module _ (mpi : Mpi) where
  -- The packet of `_get_groupid`, with one `int`.
  unfoldable pub groupid_reply : ℕ → ℕ → Option Text
  groupid_reply sys_tag claim = do
    hdr ← form_header mpi (mpi.mpi_int ∷ []) (1 ∷ [])
    total ← as_int (hdr.0 + 4)
    b0 ← pkt_builder mpi response total sys_tag 1 1 1
    b1 ← push_back_hdr mpi hdr.1 hdr.2 b0
    b2 ← push_back_data mpi (mpi.int_bytes claim) b1
    some b2.packed

  -- `_get_groupid`: the packet, for the rank that the request came from, and its tag.
  unfoldable pub get_groupid_action : PktViewer → ProcImpl → Option ((Text × ℕ × ℕ) × ProcImpl)
  unfolding groupid_reply
  get_groupid_action input s = do
    let claim = claim_rank s
    reply ← groupid_reply input.prochdr.sys_tag claim.0
    some ((reply, input.prochdr.msg_src_rank, input.prochdr.msg_tag), claim.1)

  -- The packet of `request_new_rank`: the builder is told nothing of sections, so their number is
  -- the default, one.
  unfoldable pub groupid_request : ℕ → Option Text
  groupid_request id = do b ← pkt_builder mpi get_groupid 0 id 1 1 1; some b.packed

-- `_response_action`: the mailbox is filled if both tags agree.
unfoldable pub response_action : PktViewer → ProcImpl → ProcImpl
response_action input s = elim s.awaited [
  | none ↦ s
  | some tags ↦
      if input.prochdr.sys_tag == tags.0 && input.prochdr.msg_tag == tags.1
      then record s { mail = some input }
      else s
]

module _ (mpi : Mpi) where
  -- The end of `request_new_rank`, when the wait is over.
  unfoldable pub take_rank : ProcImpl → Option (ℕ × ProcImpl)
  take_rank s = do
    mail ← s.mail
    rank_id ← get_single_data mpi 0 mail
    some (rank_id, record s { awaited = none; mail = none })
