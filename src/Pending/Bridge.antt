-- ===== src/Pending/Bridge.antt =====
-- bridge_agent/include/pending_msgs.h: the messages that the bridge agent keeps pending.
use multi_agent_accelerator.Prelude.{
  ◌≡◌, refl, [], Bool, true, false, Text, EqualityComparable, ◌↔◌, arith,
}
use multi_agent_accelerator.Pending.{Variant}

pub data Alternative : Type 0 where
  init claim send other final : Alternative

-- `_base_pending_msg`
pub record Base : Type 0 where
  pub key : Text
  pub requesting_id : Text

pub data PendingMsg : Type 0 where
  init_pending_msg : Base → PendingMsg
  claim_pending_msg : Base → Text → PendingMsg
  send_pending_msg : Base → PendingMsg
  other_pending_msg : Base → PendingMsg
  final_pending_msg : Base → PendingMsg

abbrev pub alternative_of : PendingMsg → Alternative
alternative_of (init_pending_msg b) = init
alternative_of (claim_pending_msg b c) = claim
alternative_of (send_pending_msg b) = send
alternative_of (other_pending_msg b) = other
alternative_of (final_pending_msg b) = final

abbrev pub base_of : PendingMsg → Base
base_of (init_pending_msg b) = b
base_of (claim_pending_msg b c) = b
base_of (send_pending_msg b) = b
base_of (other_pending_msg b) = b
base_of (final_pending_msg b) = b

abbrev pub ids_of : PendingMsg → Text × Text
ids_of m = ((base_of m).key, (base_of m).requesting_id)

abbrev pub empty_base : Base
empty_base = record { key = []; requesting_id = [] }

abbrev pub moved_from_of : PendingMsg → PendingMsg
moved_from_of (init_pending_msg b) = init_pending_msg empty_base
moved_from_of (claim_pending_msg b c) = claim_pending_msg empty_base []
moved_from_of (send_pending_msg b) = send_pending_msg empty_base
moved_from_of (other_pending_msg b) = other_pending_msg empty_base
moved_from_of (final_pending_msg b) = final_pending_msg empty_base

pub moved_from_of-ids : (m : PendingMsg) → ids_of (moved_from_of m) ≡ ([], [])
moved_from_of-ids (init_pending_msg b) = refl
moved_from_of-ids (claim_pending_msg b c) = refl
moved_from_of-ids (send_pending_msg b) = refl
moved_from_of-ids (other_pending_msg b) = refl
moved_from_of-ids (final_pending_msg b) = refl

abbrev pub same : Alternative → Alternative → Bool
same init init = true
same claim claim = true
same send send = true
same other other = true
same final final = true
same _ _ = false

pub same_iff : (a b : Alternative) → (same a b ≡ true) ↔ (a ≡ b)
same_iff a b = ground arith

instance abbrev pub alternative_eq : EqualityComparable Alternative
alternative_eq = record { equal_to = same; equal_to_iff = same_iff }

abbrev pub bridge_variant : Variant Alternative PendingMsg
bridge_variant = record {
  alternative = alternative_of;
  ids = ids_of;
  moved_from = moved_from_of;
  moved_from_ids = moved_from_of-ids;
}
