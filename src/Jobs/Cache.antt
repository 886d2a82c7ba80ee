-- ===== src/Jobs/Cache.antt =====
-- accelerator_agent/src/hw_nex_cache.cc: what a nexus knows of another one, its address and the
-- lines of its resources. The socket is left out.
use multi_agent_accelerator.Jobs.Constraints.{Meets, contains_kv_iff}
use multi_agent_accelerator.Jobs.Entries.{
  FunctionEntry, contains_kv, front, function_entry_of, insert_all,
}
use multi_agent_accelerator.Prelude.{
  All, All-lookup, All-of_mem, Any, Any-map, Bool, Bool-cases, IsSorted, List, Option, Text, [], ap,
  arith, false, get_elem?, if◌then◌else◌, inl, inr, list_eq, nat_eq, refl, some, subst, sym, true,
  ◌<◌, ◌==◌, ◌>>=◌, ◌↔◌, ◌∙◌, ◌∷◌, ◌≡◌,
}
use multi_agent_accelerator.Resource.{
  Header, hw_pid, hw_ss_pid, hw_ss_vid, hw_vid, index, sw_fid, sw_pid, sw_verid, sw_vid,
}
use multi_agent_accelerator.Split.{split_str}

-- `nex_cache_data`
pub record NexCache : Type 0 where
  pub host_name : Text
  pub host_addr : Text
  pub as_is : List Text

abbrev pub add_cache_data : List Text → NexCache → NexCache
add_cache_data cache_lines c = record c { as_is = cache_lines }

-- The call `get_hostname()` in `is_local` is of the member, which returns `host_name`.
abbrev pub is_local : NexCache → Bool
is_local c = c.host_name == c.host_name

-- The parts of a line, of which the first is a service and the last two are not read. The map
-- holds them in the order of their headers.
abbrev pub view_of : List Text → List (Header × Text)
view_of (pico ∷ p1 ∷ p2 ∷ p3 ∷ p4 ∷ p5 ∷ p6 ∷ p7 ∷ p8 ∷ state ∷ devices ∷ []) =
    (hw_vid, p1)
    ∷ (hw_pid, p2)
    ∷ (hw_ss_vid, p3)
    ∷ (hw_ss_pid, p4)
    ∷ (sw_vid, p5)
    ∷ (sw_pid, p6)
    ∷ (sw_fid, p7)
    ∷ (sw_verid, p8)
    ∷ []
view_of _ = []

-- A line that has another number of parts has an empty map.
abbrev pub transform_nexcache_view : Text → List (Header × Text)
transform_nexcache_view nex_cache = view_of (split_str b':' nex_cache)

abbrev pub cache_fe : Text → FunctionEntry
cache_fe cache_line = function_entry_of (transform_nexcache_view cache_line)

pub contained_in : FunctionEntry → List Text → Option Bool
contained_in fe [] = some false
contained_in fe (cache_line ∷ clines) = do
  let rest = contained_in fe clines
  b ← contains_kv fe (cache_fe cache_line)
  if b then some true else rest

unfoldable pub contains_function : FunctionEntry → NexCache → Option Bool
unfolding contained_in
contains_function fe c = contained_in fe c.as_is

-- A line without parts has no `cache_parts[0]`.
pub services_in : FunctionEntry → List Text → Option (List Text)
services_in fe [] = some []
services_in fe (cline ∷ clines) = do
  b ← contains_kv fe (cache_fe cline)
  rest ← services_in fe clines
  let listed = (do id ← get_elem? (split_str b':' cline) 0; some (id ∷ rest))
  if b then listed else some rest

unfoldable pub get_pico_service_list : FunctionEntry → NexCache → Option (List Text)
unfolding services_in
get_pico_service_list fe c = services_in fe c.as_is

-- Each field that a line names suits a constraint of the function under the same header.
abbrev pub Offers : FunctionEntry → Text → Type 0
Offers fe cache_line = All (Meets fe.header_desc) (transform_nexcache_view cache_line)

abbrev AreAscending : List (Header × Text) → Type 0
AreAscending [] = Unit
AreAscending (en ∷ m) = All (λ f. index en.0 < index f.0) m × AreAscending m

not_behind :
    (k : Header) (Q : Header × Text → Type 0) (m : List (Header × Text))
    → All (λ f. index k < index f.0) m
    → Any (λ g. (g.0 ≡ k) × Q g) m
    → ⊥
not_behind k Q [] h a = elim a [ ]
not_behind k Q (en ∷ m) h (inl q) = omega (arith, h.0, ap index q.0)
not_behind k Q (en ∷ m) h (inr q) = not_behind k Q m h.1 q

-- In a map a header has one value.
only :
    (Q : Header × Text → Type 0) (m : List (Header × Text)) (f : Header × Text)
    → AreAscending m
    → Any (λ y. f ≡ y) m
    → Any (λ g. (g.0 ≡ f.0) × Q g) m
    → Q f
only Q [] f h e a = elim a [ ]
only Q (en ∷ m) f h (inl e) (inl q) = subst Q (sym e) q.1
only Q (en ∷ m) f h (inl e) (inr q) =
    let bad =
      not_behind en.0 Q m h.0
        (Any-map (λ g p. (p.0 ∙ ap (λ (x : Header × Text). x.0) e, p.1)) m q) in
    elim bad [ ]
only Q (en ∷ m) f h (inr e) (inl q) =
    let bad =
      not_behind en.0 (λ g. Unit) m h.0
        (Any-map (λ g p. (ap (λ (x : Header × Text). x.0) (sym p) ∙ sym q.0, tt)) m e) in
    elim bad [ ]
only Q (en ∷ m) f h (inr e) (inr q) = only Q m f h.1 e q

-- The multimap that is made of a line's map has the same entries, in the order of their headers.
abbrev IsView : List (Header × Text) → Type 0
IsView m = (insert_all m [] ≡ m) × (IsSorted index m × AreAscending m)

view_of-IsView : (parts : List Text) → IsView (view_of parts)
view_of-IsView ([]) = (refl, (tt, tt))
view_of-IsView (p0 ∷ []) = (refl, (tt, tt))
view_of-IsView (p0 ∷ p1 ∷ []) = (refl, (tt, tt))
view_of-IsView (p0 ∷ p1 ∷ p2 ∷ []) = (refl, (tt, tt))
view_of-IsView (p0 ∷ p1 ∷ p2 ∷ p3 ∷ []) = (refl, (tt, tt))
view_of-IsView (p0 ∷ p1 ∷ p2 ∷ p3 ∷ p4 ∷ []) = (refl, (tt, tt))
view_of-IsView (p0 ∷ p1 ∷ p2 ∷ p3 ∷ p4 ∷ p5 ∷ []) = (refl, (tt, tt))
view_of-IsView (p0 ∷ p1 ∷ p2 ∷ p3 ∷ p4 ∷ p5 ∷ p6 ∷ []) = (refl, (tt, tt))
view_of-IsView (p0 ∷ p1 ∷ p2 ∷ p3 ∷ p4 ∷ p5 ∷ p6 ∷ p7 ∷ []) = (refl, (tt, tt))
view_of-IsView (p0 ∷ p1 ∷ p2 ∷ p3 ∷ p4 ∷ p5 ∷ p6 ∷ p7 ∷ p8 ∷ []) = (refl, (tt, tt))
view_of-IsView (p0 ∷ p1 ∷ p2 ∷ p3 ∷ p4 ∷ p5 ∷ p6 ∷ p7 ∷ p8 ∷ p9 ∷ []) = (refl, (tt, tt))
view_of-IsView (p0 ∷ p1 ∷ p2 ∷ p3 ∷ p4 ∷ p5 ∷ p6 ∷ p7 ∷ p8 ∷ p9 ∷ p10 ∷ []) =
    (refl, (omega arith, omega arith))
view_of-IsView (p0 ∷ p1 ∷ p2 ∷ p3 ∷ p4 ∷ p5 ∷ p6 ∷ p7 ∷ p8 ∷ p9 ∷ p10 ∷ p11 ∷ ps) = (refl, (tt, tt))

-- The test on one line.
contains_kv-Offers :
    (fe : FunctionEntry) (cache_line : Text)
    → (b : Bool) × (contains_kv fe (cache_fe cache_line) ≡ some b)
      × ((b ≡ true) ↔ Offers fe cache_line)
contains_kv-Offers fe cache_line =
    let view = transform_nexcache_view cache_line in
    let (same, (sorted, ascending)) = view_of-IsView (split_str b':' cache_line) in
    let (b, runs, reads) =
      contains_kv_iff fe (cache_fe cache_line) (subst (IsSorted index) (sym same) sorted) in
    let form : Type 0 → Type 0 = λ t. (b ≡ true) ↔ t in
    let reads' =
      subst
        (λ m. (b ≡ true) ↔ All (λ f. Any (λ g. (g.0 ≡ f.0) × Meets fe.header_desc (f.0, g.1)) m) m)
        same reads in
    (
      b,
      runs,
      (
        λ t. All-of_mem _ view (λ f e.
            only (λ g. Meets fe.header_desc g) view f ascending e
              (Any-map (λ g p. (p.0, subst (λ k. Meets fe.header_desc (k, g.1)) (sym p.0) p.1)) view
                (All-lookup _ view f (reads'.0 t) e))),
        λ o. reads'.1 (
            All-of_mem _ view (λ f e.
              Any-map
                (λ g q. (
                  ap (λ (x : Header × Text). x.0) (sym q),
                  subst (λ (x : Header × Text). Meets fe.header_desc (f.0, x.1)) q
                      (All-lookup _ view f o e),
                ))
                view e)),
      ),
    )

contained_in_iff :
    (fe : FunctionEntry) (clines : List Text)
    → (b : Bool) × (contained_in fe clines ≡ some b) × ((b ≡ true) ↔ Any (Offers fe) clines)
unfolding contained_in
contained_in_iff fe [] = (false, refl, (λ e. cc, λ a. elim a [ ]))
contained_in_iff fe (cline ∷ clines) =
    let (b, runs, reads) = contains_kv-Offers fe cline in
    let (r, rest, reads_rest) = contained_in_iff fe clines in
    elim (Bool-cases b) [
      | inl e ↦ (true, rw (runs, e) refl, (λ t. inl (reads.0 e), λ a. refl))
      | inr e ↦ (
        r,
        rw (runs, e, rest) refl,
        (
          λ t. inr (reads_rest.0 t),
          λ a. elim a [ inl o ↦ (let yes = reads.1 o in cc) | inr o ↦ reads_rest.1 o ],
        ),
      )
    ]

-- A nexus is taken to have a function exactly if each field of one of its lines suits a constraint
-- of the function; a line without eleven parts has no fields.
pub contains_function_iff :
    (fe : FunctionEntry) (c : NexCache)
    → (b : Bool) × (contains_function fe c ≡ some b) × ((b ≡ true) ↔ Any (Offers fe) c.as_is)
unfolding contains_function
contains_function_iff fe c = contained_in_iff fe c.as_is

abbrev pub HasService : Text → Text → Type 0
HasService id cline = get_elem? (split_str b':' cline) 0 ≡ some id

-- Of the lines that offer the function the first names the first service.
pub services_in-front :
    (fe : FunctionEntry) (clines : List Text)
    → All (λ cline. (id : Text) × HasService id cline) clines
    → (ids : List Text) × (services_in fe clines ≡ some ids)
      × (Any (Offers fe) clines
          → (id : Text) × (front ids ≡ some id)
            × Any (λ cline. Offers fe cline × HasService id cline) clines)
unfolding services_in
services_in-front fe [] h = ([], refl, λ a. elim a [ ])
services_in-front fe (cline ∷ clines) h =
    let (b, runs, reads) = contains_kv-Offers fe cline in
    let (ids, rest, found) = services_in-front fe clines h.1 in
    let (id, named) = h.0 in
    elim (Bool-cases b) [
      | inl e ↦ (id ∷ ids, rw (runs, rest, named, e) refl, λ a. (id, refl, inl (reads.0 e, named)))
      | inr e ↦ (
        ids,
        rw (runs, rest, e) refl,
        λ a. elim a [
          | inl o ↦ (let yes : b ≡ true = reads.1 o in let bad : ⊥ = cc in elim bad [ ])
          | inr o ↦ (let (i, first, which) = found o in (i, first, inr which))
        ],
      )
    ]
