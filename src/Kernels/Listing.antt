-- ===== src/Kernels/Listing.antt =====
-- virtualization_agent/common/src/kernel_intf.cc: which lines the list of all lines has.
use multi_agent_accelerator.Kernels.{
  KernelDb, KernelEntry, KernelFile, get_func_ids, get_function, get_kernel_file,
  get_kernel_file_ids, keys_of,
}
use multi_agent_accelerator.Kernels.Clines.{
  KernelDescs, clines_in, clines_of, generate_cline, get_all_clines, get_all_clines_infile,
  get_kernel_cline, succ,
}
use multi_agent_accelerator.Prelude.{
  ==_refl, All, All-map, Bool-cases, List, Text, [], find, inl, inr, nat_eq, refl, some, ℕ, ◌==◌,
  ◌∷◌, ◌≡◌,
}

pub find-keys_of :
    {V : Type 0} (m : List (ℕ × V)) → All (λ k. (v : V) × (find k m ≡ some v)) (keys_of m)
find-keys_of [] = tt
find-keys_of {V} (en ∷ m) =
    ((en.1, rw (==_refl en.0) refl), All-map behind (keys_of m) (find-keys_of m))
  where
    behind : (k : ℕ) → (v : V) × (find k m ≡ some v) → (v : V) × (find k (en ∷ m) ≡ some v)
    behind k (v, h) = elim (Bool-cases (en.0 == k)) [
      | inl e ↦ (en.1, rw e refl)
      | inr e ↦ (v, rw e h)
    ]

module _ {Proto : Type 0} where
  get_kernel_cline-found :
      (fid func_id : ℕ) (cline : Text) (kf : KernelFile KernelDescs Proto)
      (entry : KernelEntry KernelDescs Proto) (db : KernelDb KernelDescs Proto)
      → get_kernel_file fid db ≡ some kf
      → get_function func_id kf ≡ some entry
      → get_kernel_cline fid func_id cline db
        ≡ some (succ, generate_cline kf.dir_filename entry.descs)
  unfolding get_kernel_cline
  get_kernel_cline-found fid func_id cline kf entry db found known =
      rw (get_kernel_cline, found, known) refl

  -- Functions that exist leave the lines as they are.
  clines_of-known :
      (fid : ℕ) (func_ids : List ℕ) (clines : List Text) (kf : KernelFile KernelDescs Proto)
      (db : KernelDb KernelDescs Proto)
      → get_kernel_file fid db ≡ some kf
      → All
          (λ func_id.
            (entry : KernelEntry KernelDescs Proto) × (get_function func_id kf ≡ some entry))
          func_ids
      → clines_of fid func_ids clines db ≡ some clines
  unfolding clines_of
  clines_of-known fid [] clines kf db found h = refl
  clines_of-known fid (func_id ∷ func_ids) clines kf db found h =
      rw (get_kernel_cline-found fid func_id [] kf h.0.0 db found h.0.1)
        (clines_of-known fid func_ids clines kf db found h.1)

  get_all_clines_infile-found :
      (fid : ℕ) (clines : List Text) (kf : KernelFile KernelDescs Proto)
      (db : KernelDb KernelDescs Proto)
      → get_kernel_file fid db ≡ some kf
      → get_all_clines_infile fid clines db ≡ some (succ, clines)
  unfolding get_all_clines_infile get_func_ids get_function
  get_all_clines_infile-found fid clines kf db found =
      rw
        (
          found,
          get_all_clines_infile,
          clines_of-known fid (keys_of kf.kernel_functions) clines kf db found
              (find-keys_of kf.kernel_functions),
        )
        refl

  clines_in-known :
      (file_ids : List ℕ) (clines : List Text) (db : KernelDb KernelDescs Proto)
      → All
          (λ fid. (kf : KernelFile KernelDescs Proto) × (get_kernel_file fid db ≡ some kf))
          file_ids
      → clines_in file_ids clines db ≡ some clines
  unfolding clines_in
  clines_in-known [] clines db h = refl
  clines_in-known (fid ∷ file_ids) clines db h =
      rw (get_all_clines_infile-found fid clines h.0.0 db h.0.1)
        (clines_in-known file_ids clines db h.1)

  -- The line of a function of a file is its location and its descriptors, without an error; yet
  -- the list of all lines, also without an error, gets no line.
  pub get_all_clines-get_kernel_cline :
      (fid func_id : ℕ) (cline : Text) (clines : List Text) (kf : KernelFile KernelDescs Proto)
      (entry : KernelEntry KernelDescs Proto) (db : KernelDb KernelDescs Proto)
      → get_kernel_file fid db ≡ some kf
      → get_function func_id kf ≡ some entry
      → (get_kernel_cline fid func_id cline db
          ≡ some (succ, generate_cline kf.dir_filename entry.descs))
        × (get_all_clines clines db ≡ some (succ, clines))
  unfolding get_all_clines get_kernel_file_ids get_kernel_file
  get_all_clines-get_kernel_cline fid func_id cline clines kf entry db found known = (
    get_kernel_cline-found fid func_id cline kf entry db found known,
    rw (clines_in-known (keys_of db.kernel_files) clines db (find-keys_of db.kernel_files)) refl,
  )
