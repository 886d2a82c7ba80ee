-- ===== src/Kernels/Ids.antt =====
-- virtualization_agent/common/src/kernel_db.cc: the ids that the counters give out.
use multi_agent_accelerator.Kernels.{
  KernelDb, KernelEntry, KernelFile, add_function_info, add_kernel_func_desc, add_kernel_func_proto,
  add_kernel_info, create_entry, get_function, get_kernel_file, with_files,
}
use multi_agent_accelerator.Prelude.{
  IsBelow, Text, [], arith, emplace, emplace-IsBelow, find-IsBelow, find-emplace_other,
  find-emplace_self, find-modify_self, modify, nat_eq, none, refl, some, subst, suc, sym, true, ℕ,
  ◌%◌, ◌+◌, ◌<◌, ◌∙◌, ◌≡◌, ◌≢◌,
}

next-suc : (n : ℕ) → n + 1 < 18446744073709551616 → (n + 1) % 18446744073709551616 ≡ suc n
next-suc n h = omega arith

module _ {Descs Proto : Type 0} where
  -- A new file gets an id that no file has, and is found by it, without functions; the other files
  -- are found as before, and the next id is unused again, as long as the counter does not wrap.
  pub create_entry-fresh :
      (dir filename : Text) (db : KernelDb Descs Proto)
      → IsBelow db.kf_cnt db.kernel_files
      → db.kf_cnt + 1 < 18446744073709551616
      → (db' : KernelDb Descs Proto) × (fid : ℕ) × (create_entry dir filename db ≡ (db', fid))
        × (get_kernel_file fid db ≡ none)
        × (get_kernel_file fid db'
            ≡ some (record { kernel_functions = []; func_ids = 0; dir_filename = (dir, filename) }))
        × ((j : ℕ) → j ≢ fid → get_kernel_file j db' ≡ get_kernel_file j db)
        × IsBelow db'.kf_cnt db'.kernel_files
  unfolding create_entry get_kernel_file
  create_entry-fresh dir filename db h fits =
      let file : KernelFile Descs Proto = record {
        kernel_functions = [];
        func_ids = 0;
        dir_filename = (dir, filename);
      } in
      let absent = find-IsBelow db.kf_cnt db.kernel_files h in
      (
        (create_entry dir filename db).0,
        db.kf_cnt,
        refl,
        absent,
        find-emplace_self db.kf_cnt file db.kernel_files ∙ rw absent refl,
        λ j ne. find-emplace_other db.kf_cnt j file db.kernel_files ne,
        subst (λ n. IsBelow n (emplace db.kf_cnt file db.kernel_files))
            (sym (next-suc db.kf_cnt fits)) (emplace-IsBelow db.kf_cnt file db.kernel_files h),
      )

  -- A function that is added to a file gets an id that no function of the file has, and is found
  -- by it there, without prototypes; the next id is unused again, as long as it does not wrap.
  pub add_kernel_info-fresh :
      (fid : ℕ) (d : Descs) (kf : KernelFile Descs Proto) (db : KernelDb Descs Proto)
      → get_kernel_file fid db ≡ some kf
      → IsBelow kf.func_ids kf.kernel_functions
      → kf.func_ids + 1 < 18446744073709551616
      → (db' : KernelDb Descs Proto) × (kf' : KernelFile Descs Proto) × (func_id : ℕ)
        × (add_kernel_info fid d db ≡ (db', some func_id))
        × (get_kernel_file fid db' ≡ some kf')
        × (get_function func_id kf ≡ none)
        × (get_function func_id kf' ≡ some (record { descs = d; protos = [] }))
        × IsBelow kf'.func_ids kf'.kernel_functions
  unfolding add_kernel_info add_kernel_func_desc get_kernel_file get_function
  add_kernel_info-fresh fid d kf db found h fits =
      let entry : KernelEntry Descs Proto = record { descs = d; protos = [] } in
      let add : KernelFile Descs Proto → KernelFile Descs Proto =
        λ k. (add_kernel_func_desc d k).0 in
      let absent = find-IsBelow kf.func_ids kf.kernel_functions h in
      (
        with_files (modify fid add db.kernel_files) db,
        add kf,
        kf.func_ids,
        rw (add_kernel_info, found) refl,
        find-modify_self fid add db.kernel_files kf found,
        absent,
        find-emplace_self kf.func_ids entry kf.kernel_functions ∙ rw absent refl,
        subst (λ n. IsBelow n (emplace kf.func_ids entry kf.kernel_functions))
            (sym (next-suc kf.func_ids fits))
            (emplace-IsBelow kf.func_ids entry kf.kernel_functions h),
      )

  -- A prototype for a function that a file does not have is reported as added, and the file stays
  -- as it was.
  pub add_function_info-unknown :
      (fid func_id : ℕ) (p : Proto) (kf : KernelFile Descs Proto) (db : KernelDb Descs Proto)
      → get_kernel_file fid db ≡ some kf
      → get_function func_id kf ≡ none
      → (db' : KernelDb Descs Proto) × (add_function_info fid func_id p db ≡ (db', true))
        × (get_kernel_file fid db' ≡ some kf)
  unfolding add_function_info add_kernel_func_proto get_kernel_file get_function
  add_function_info-unknown fid func_id p kf db found unknown =
      let add : KernelFile Descs Proto → KernelFile Descs Proto =
        λ k. (add_kernel_func_proto func_id p k).0 in
      (
        with_files (modify fid add db.kernel_files) db,
        rw (add_function_info, found) refl,
        find-modify_self fid add db.kernel_files kf found
            ∙ rw (add_kernel_func_proto, unknown) refl,
      )
