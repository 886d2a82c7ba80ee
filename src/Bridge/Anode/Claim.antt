-- ===== src/Bridge/Anode/Claim.antt =====
-- bridge_agent/src/anode_manager.cc: `make_claim` sends a claim to the recommended node and to no
-- other, and so raises the count of one node.
use multi_agent_accelerator.Bridge.Anode.{Anode, activated, init_anode, post_init}
use multi_agent_accelerator.Ncache.{dump_manifest, supports}
use multi_agent_accelerator.Ncache.Manifest.{
  add_descs, add_resources-dump_manifest, supports-add_descs,
}
use multi_agent_accelerator.Prelude.{
  All, List, Text, get_elem?, get_elem?-bound, get_elem?-set_self, refl, set, some, true, ℕ, ◌||◌,
  ◌≡◌,
}
use multi_agent_accelerator.Resource.{Desc}
use multi_agent_accelerator.Resource.RoundTrip.{IsCanonical}
use multi_agent_accelerator.Wire.{Multipart}

module _ {Frame : Type 0} (m : Multipart Frame) where
  -- Once a manifest of canonical lines has reached a node, the node is active, and it supports what
  -- it supported before and what the manifest's lines support.
  pub post_init-supports :
      (node_idx : ℕ) (nex_id : Text) (ds : List Desc) (anodes : List (Anode m)) (an : Anode m)
      → get_elem? anodes node_idx ≡ some an
      → All IsCanonical ds
      → (anodes' : List (Anode m)) × (an' : Anode m) × (post_init m node_idx nex_id
            (dump_manifest ds)
            anodes
          ≡ some anodes')
        × (get_elem? anodes' node_idx ≡ some an')
        × (an'.active ≡ true)
        × ((res : Desc) → supports res an'.ncache ≡ supports res an.ncache || supports res ds)
  unfolding post_init init_anode
  post_init-supports node_idx nex_id ds anodes an h c = (
    set anodes node_idx (activated m nex_id (add_descs ds an.ncache) an),
    activated m nex_id (add_descs ds an.ncache) an,
    rw (h, post_init, add_resources-dump_manifest ds an.ncache c) refl,
    get_elem?-set_self anodes node_idx _ (get_elem?-bound anodes node_idx h),
    refl,
    λ res. supports-add_descs res ds an.ncache,
  )
