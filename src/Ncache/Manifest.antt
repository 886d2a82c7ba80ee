-- ===== src/Ncache/Manifest.antt =====
-- utils/src/ncache_registry.cc, utils/include/ncache_registry.h: a registry that is told the manifest
-- of another becomes a copy of it, and no line is ever held twice.
-- Adding a resource holds on to the lines being distinct.
use multi_agent_accelerator.Ncache.{
  add_desc, add_resource, add_resources, can_execute, compare_execute, dump_manifest, exact_exists,
  supports,
}
use multi_agent_accelerator.Ncache.Support.{supports-can_execute}
use multi_agent_accelerator.Prelude.{
  All, AreDistinct, AreDistinct-insert, Bool, List, [], any_of, any_of-append, any_of-insert, ap,
  append-nil, append_assoc, arith, occurs-prefix, refl, some, sym, ◌++◌, ◌||◌, ◌∙◌, ◌∷◌, ◌≡◌,
}
use multi_agent_accelerator.Resource.{Desc, desc_eq, stringify, sw_clid, sw_fid}
use multi_agent_accelerator.Resource.RoundTrip.{IsCanonical, cached_resource_desc-stringify}

pub add_desc-AreDistinct :
    (d : Desc) (caches : List Desc) → AreDistinct caches → AreDistinct (add_desc d caches)
unfolding add_desc exact_exists
add_desc-AreDistinct d caches h = AreDistinct-insert d caches h

abbrev pub add_descs : List Desc → List Desc → List Desc
add_descs [] caches = caches
add_descs (d ∷ ds) caches = add_descs ds (add_desc d caches)

pub add_resource-stringify :
    (d : Desc) (caches : List Desc)
    → IsCanonical d
    → add_resource (stringify d) caches ≡ some (add_desc d caches)
unfolding add_resource
add_resource-stringify d caches c = rw (cached_resource_desc-stringify d c)

-- Every line of a manifest of canonical lines is understood, and added in turn.
pub add_resources-dump_manifest :
    (ds caches : List Desc)
    → All IsCanonical ds
    → add_resources (dump_manifest ds) caches ≡ some (add_descs ds caches)
unfolding add_resources dump_manifest
add_resources-dump_manifest [] caches h = refl
add_resources-dump_manifest (d ∷ ds) caches h =
    rw (add_resource-stringify d caches h.0)
      (add_resources-dump_manifest ds (add_desc d caches) h.1)

pub add_descs-append :
    (ds caches : List Desc) → AreDistinct (caches ++ ds) → add_descs ds caches ≡ caches ++ ds
unfolding add_desc exact_exists
add_descs-append [] caches h = sym (append-nil caches)
add_descs-append (d ∷ ds) caches h = rw (occurs-prefix d caches ds h) (
    add_descs-append ds (caches ++ d ∷ []) (rw (append_assoc caches (d ∷ []) ds) h)
    ∙ append_assoc caches (d ∷ []) ds)

-- An empty registry that is told the manifest of a registry of distinct, canonical lines becomes
-- that registry.
pub dump_manifest_copies :
    (ds : List Desc)
    → AreDistinct ds
    → All IsCanonical ds
    → add_resources (dump_manifest ds) [] ≡ some ds
dump_manifest_copies ds h c =
    add_resources-dump_manifest ds [] c ∙ ap some (add_descs-append ds [] h)

any_of-add_descs :
    (q : Desc → Bool) (ds caches : List Desc)
    → any_of q (add_descs ds caches) ≡ any_of q caches || any_of q ds
unfolding add_desc exact_exists
any_of-add_descs q [] caches = ground arith
any_of-add_descs q (d ∷ ds) caches =
    any_of-add_descs q ds (add_desc d caches) ∙ rw (any_of-insert q d caches) (ground arith)

-- Claims are supported after lines are added if they were before, or by the new lines.
pub supports-add_descs :
    (res : Desc) (ds caches : List Desc)
    → supports res (add_descs ds caches) ≡ supports res caches || supports res ds
unfolding can_execute
supports-add_descs res ds caches =
    rw
      (
        supports-can_execute res (add_descs ds caches),
        supports-can_execute res caches,
        supports-can_execute res ds,
      )
      (any_of-add_descs (compare_execute (res sw_clid) (res sw_fid)) ds caches)

pub supports-append :
    (res : Desc) (xs ys : List Desc) → supports res (xs ++ ys) ≡ supports res xs || supports res ys
unfolding can_execute
supports-append res xs ys =
    rw
      (
        supports-can_execute res (xs ++ ys),
        supports-can_execute res xs,
        supports-can_execute res ys,
      )
      (any_of-append (compare_execute (res sw_clid) (res sw_fid)) xs ys)
