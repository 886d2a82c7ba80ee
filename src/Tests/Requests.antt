-- ===== src/Tests/Requests.antt =====
-- utils/include/pending_msg_reg.h at the bridge's messages.
use multi_agent_accelerator.Pending.{get_ids, remove_message}
use multi_agent_accelerator.Pending.Bridge.{
  Base, PendingMsg, alternative_eq, bridge_variant, claim_pending_msg, send_pending_msg,
}
use multi_agent_accelerator.Pending.Removal.{get_ids-remove_message}
use multi_agent_accelerator.Prelude.{
  List, Text, [], codes, list_eq, nat_eq, ne_of_beq, refl, ◌∷◌, ◌≡◌,
}

abbrev base : Text → Text → Base
base key rid = record { key = key; requesting_id = rid }

abbrev claim_msg : PendingMsg
claim_msg = claim_pending_msg (base (codes "lib1") (codes "rank1")) []

abbrev send_msg : PendingMsg
send_msg = send_pending_msg (base (codes "lib2") (codes "rank2"))

abbrev two : List (Text × PendingMsg)
two = (codes "a", claim_msg) ∷ (codes "b", send_msg) ∷ []

get_ids-remove_message_example :
    get_ids bridge_variant (codes "b") (remove_message bridge_variant (codes "a") two)
    ≡ get_ids bridge_variant (codes "b") two
get_ids-remove_message_example =
    get_ids-remove_message bridge_variant (codes "a") (codes "b") two (ne_of_beq _ _ refl)
      (ne_of_beq _ _ refl)
