-- ===== src/Runtime/Bounds.antt =====
-- runtime_agent/src/mpi_proc_utils.cc: how many bytes each part of a packet takes.
use multi_agent_accelerator.Prelude.{
  Bool-cases, List, Option, Text, [], ap, append_assoc, arith, false, get_elem?, get_elem?-middle,
  inl, inr, leb, length, length-append, ltb, none, refl, some, suc, sym, true, zero, ℕ, ◌*◌, ◌++◌,
  ◌+◌, ◌<◌, ◌>>=◌, ◌∙◌, ◌∷◌, ◌≡◌, ◌≤◌,
}
use multi_agent_accelerator.Runtime.{
  Mpi, PktBuilder, ProcMid, as_int, form_header, front_of_length, ints_bytes, pack, pkt_builder,
  push_back_data, push_back_hdr, section_bytes,
}

pub as_int-fits : (n : ℕ) → n < 2147483648 → as_int n ≡ some n
as_int-fits n h = let e : ltb n 2147483648 ≡ true = ground (arith, h) in rw e refl

pub front_of_length-all : {A : Type 0} (xs : List A) → front_of_length (length xs) xs ≡ some xs
front_of_length-all [] = refl
front_of_length-all (x ∷ xs) = rw (front_of_length-all xs) refl

pub front_of_length-long :
    {A : Type 0} (n : ℕ) (xs : List A)
    → n ≤ length xs
    → (ys : List A) × (front_of_length n xs ≡ some ys) × (length ys ≡ n)
front_of_length-long zero xs h = ([], refl, refl)
front_of_length-long (suc n) [] h = let bad : ⊥ = omega (arith, h) in elim bad [ ]
front_of_length-long (suc n) (x ∷ xs) h =
    let (ys, e, l) = front_of_length-long n xs (omega (arith, h)) in (x ∷ ys, rw e refl, ap suc l)

pub pack-fits :
    (bytes : Text) (b : PktBuilder)
    → length b.packed + length bytes ≤ b.total_size
    → pack bytes b ≡ some (record b { packed = b.packed ++ bytes })
pack-fits bytes b h =
    let e : leb (length b.packed + length bytes) b.total_size ≡ true = ground (arith, h) in
    rw e refl

pub pack-none :
    (bytes : Text) (b : PktBuilder)
    → b.total_size < length b.packed + length bytes
    → pack bytes b ≡ none
pack-none bytes b h =
    let e : leb (length b.packed + length bytes) b.total_size ≡ false = ground (arith, h) in
    rw e refl

module _ (mpi : Mpi) where
  pub length-int_bytes : (n : ℕ) → length (mpi.int_bytes n) ≡ 4
  length-int_bytes n = let (a, b, c, d, e) = mpi.four_bytes n in rw e refl

  pub length-ints_bytes : (ns : List ℕ) → length (ints_bytes mpi ns) ≡ 4 * length ns
  length-ints_bytes [] = omega arith
  length-ints_bytes (n ∷ ns) = omega (
    arith,
    length-append (mpi.int_bytes n) (ints_bytes mpi ns),
    length-int_bytes n,
    length-ints_bytes ns,
  )

  -- The bytes of the data of the sections.
  abbrev pub data_bytes : List ℕ → List ℕ → ℕ
  data_bytes [] sizes = 0
  data_bytes (t ∷ types) [] = 0
  data_bytes (t ∷ types) (n ∷ sizes) = mpi.type_size t * n + data_bytes types sizes

  -- The loop adds the data of the sections, and four bytes for each, if the sum is an `int`.
  pub section_bytes-data_bytes :
      (types sizes : List ℕ) (bytes : ℕ)
      → length types ≡ length sizes
      → bytes + data_bytes types sizes + 4 * length types < 2147483648
      → section_bytes mpi types sizes bytes
        ≡ some (bytes + data_bytes types sizes + 4 * length types)
  section_bytes-data_bytes [] [] bytes h few = ap some (omega arith)
  section_bytes-data_bytes [] (n ∷ sizes) bytes h few =
      let bad : ⊥ = omega (arith, h) in elim bad [ ]
  section_bytes-data_bytes (t ∷ types) [] bytes h few =
      let bad : ⊥ = omega (arith, h) in elim bad [ ]
  section_bytes-data_bytes (t ∷ types) (n ∷ sizes) bytes h few =
      let size = mpi.type_size t * n in
      let next = bytes + (size + 4) in
      let rest =
        section_bytes-data_bytes types sizes next (omega (arith, h)) (omega (arith, few)) in
      rw (as_int-fits size (omega (arith, few)), as_int-fits next (omega (arith, few)))
        (rest ∙ ap some (omega arith))

  -- Each section has its data.
  abbrev pub HaveData : List ℕ → List ℕ → List Text → Type 0
  HaveData [] [] [] = Unit
  HaveData (t ∷ types) (n ∷ sizes) (content ∷ contents) =
      (mpi.type_size t * n ≤ length content) × HaveData types sizes contents
  HaveData _ _ _ = ⊥

  -- The data of the sections, one after the other.
  abbrev pub push_all : List Text → PktBuilder → Option PktBuilder
  push_all [] b = some b
  push_all (content ∷ contents) b = do b1 ← push_back_data mpi content b; push_all contents b1

  -- A packet whose total size is what `form_header` computes and some bytes more.
  abbrev pub packet_of : ProcMid → ℕ → ℕ → List ℕ → List ℕ → List Text → Option PktBuilder
  packet_of method extra stag types sizes contents = do
    hdr ← form_header mpi types sizes
    total ← as_int (hdr.0 + extra)
    b0 ← pkt_builder mpi method total stag (length types) 1 1
    b1 ← push_back_hdr mpi hdr.1 hdr.2 b0
    push_all contents b1

  -- The builder is at the first of these sections.
  abbrev pub IsAt : PktBuilder → List ℕ → List ℕ → Type 0
  IsAt b types sizes =
      (ts : List ℕ) × (ns : List ℕ) × (b.types ≡ ts ++ types)
      × (b.sizes ≡ ns ++ sizes)
      × (length ts ≡ b.cur_push_index)
      × (length ns ≡ b.cur_push_index)

  push_back_data-packs :
      (t n : ℕ) (types sizes : List ℕ) (content : Text) (b : PktBuilder)
      → IsAt b (t ∷ types) (n ∷ sizes)
      → mpi.type_size t * n ≤ length content
      → (bytes : Text) × (length bytes ≡ mpi.type_size t * n)
        × (push_back_data mpi content b
            ≡ (do b1 ← pack bytes b; some (record b1 { cur_push_index = b1.cur_push_index + 1 })))
  unfolding push_back_data
  push_back_data-packs t n types sizes content b (ts, ns, e_types, e_sizes, e_ts, e_ns) enough =
      let (bytes, found, long) = front_of_length-long (mpi.type_size t * n) content enough in
      let at_type : get_elem? b.types b.cur_push_index ≡ some t =
        ap (λ xs. get_elem? xs b.cur_push_index) e_types
        ∙ get_elem?-middle ts t types b.cur_push_index e_ts in
      let at_size : get_elem? b.sizes b.cur_push_index ≡ some n =
        ap (λ xs. get_elem? xs b.cur_push_index) e_sizes
        ∙ get_elem?-middle ns n sizes b.cur_push_index e_ns in
      (bytes, long, rw (at_size, at_type, found) refl)

  IsAt-next :
      (t n : ℕ) (types sizes : List ℕ) (packed : Text) (b : PktBuilder)
      → IsAt b (t ∷ types) (n ∷ sizes)
      → IsAt (record b { packed = packed; cur_push_index = b.cur_push_index + 1 }) types sizes
  IsAt-next t n types sizes packed b (ts, ns, e_types, e_sizes, e_ts, e_ns) = (
    ts ++ t ∷ [],
    ns ++ n ∷ [],
    e_types ∙ sym (append_assoc ts (t ∷ []) types),
    e_sizes ∙ sym (append_assoc ns (n ∷ []) sizes),
    omega (arith, length-append ts (t ∷ []), e_ts),
    omega (arith, length-append ns (n ∷ []), e_ns),
  )

  -- The data of the sections is packed exactly if there is room for it.
  pub push_all-fits :
      (types sizes : List ℕ) (contents : List Text) (b : PktBuilder)
      → IsAt b types sizes
      → HaveData types sizes contents
      → length b.packed ≤ b.total_size
      → (length b.packed + data_bytes types sizes ≤ b.total_size
          → (b' : PktBuilder) × (push_all contents b ≡ some b')
            × (length b'.packed ≡ length b.packed + data_bytes types sizes))
        × (b.total_size < length b.packed + data_bytes types sizes → push_all contents b ≡ none)
  push_all-fits [] [] [] b place have within =
      (λ h. (b, refl, omega arith), λ h. (let bad : ⊥ = omega (arith, h, within) in elim bad [ ]))
  push_all-fits [] [] (c ∷ contents) b place have within = elim have [ ]
  push_all-fits [] (n ∷ sizes) contents b place have within = elim have [ ]
  push_all-fits (t ∷ types) [] contents b place have within = elim have [ ]
  push_all-fits (t ∷ types) (n ∷ sizes) [] b place have within = elim have [ ]
  push_all-fits (t ∷ types) (n ∷ sizes) (c ∷ contents) b place have within =
      let (bytes, long, pushes) = push_back_data-packs t n types sizes c b place have.0 in
      let b1 : PktBuilder = record b {
        packed = b.packed ++ bytes;
        cur_push_index = b.cur_push_index + 1;
      } in
      let grown = length-append b.packed bytes in
      elim (Bool-cases (leb (length b.packed + length bytes) b.total_size)) [
        | inl e ↦
            let fits : length b.packed + length bytes ≤ b.total_size = ground (arith, e) in
            let runs : push_back_data mpi c b ≡ some b1 =
              pushes
              ∙ ap
                  (λ o. o >>= (λ (x : PktBuilder).
                    some (record x { cur_push_index = x.cur_push_index + 1 })))
                  (pack-fits bytes b fits) in
            let rest =
              push_all-fits types sizes contents b1
                (IsAt-next t n types sizes (b.packed ++ bytes) b place) have.1
                (omega (arith, fits, grown)) in
            (
              λ h.
                  let (b', ends, total) = rest.0 (omega (arith, h, grown, long)) in
                  (b', rw runs ends, omega (arith, total, grown, long)),
              λ h. rw runs (rest.1 (omega (arith, h, grown, long))),
            )
        | inr e ↦
            let over : b.total_size < length b.packed + length bytes = ground (arith, e) in
            let fails : push_back_data mpi c b ≡ none =
              pushes
              ∙ ap
                  (λ o. o >>= (λ (x : PktBuilder).
                    some (record x { cur_push_index = x.cur_push_index + 1 })))
                  (pack-none bytes b over) in
            (λ h. (let bad : ⊥ = omega (arith, h, over, long) in elim bad [ ]), λ h. rw fails refl)
      ]
