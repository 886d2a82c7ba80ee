-- ===== src/Kernels.antt =====
-- virtualization_agent/common/src/kernel_db.cc: the files of kernels that an agent knows, and the
-- functions in each, both under ids that a counter gives out.
use multi_agent_accelerator.Prelude.{
  Bool, List, Option, Text, [], emplace, erase, false, find, modify, nat_eq, none, some, true, ℕ,
  ◌%◌, ◌++◌, ◌+◌, ◌∷◌,
}
pub mod Clines
pub mod Ids
pub mod Listing

-- What the table keeps of a function is handed in and out as a whole: the descriptors, which the
-- table does not look into, and the prototypes that were added.
pub record KernelEntry (Descs Proto : Type 0) : Type 0 where
  pub descs : Descs
  pub protos : List Proto

module _ (Descs Proto : Type 0) where
  pub record KernelFile : Type 0 where
    pub kernel_functions : List (ℕ × KernelEntry Descs Proto)
    pub func_ids : ℕ
    pub dir_filename : Text × Text

  pub record KernelDb : Type 0 where
    pub kernel_files : List (ℕ × KernelFile)
    pub kf_cnt : ℕ

-- The counters are of 64 bits.
abbrev pub next : ℕ → ℕ
next n = (n + 1) % 18446744073709551616

abbrev pub keys_of : {V : Type 0} → List (ℕ × V) → List ℕ
keys_of [] = []
keys_of (en ∷ entries) = en.0 ∷ keys_of entries

module _ {Descs Proto : Type 0} where
  -- The id is the second result.
  unfoldable pub add_kernel_func_desc : Descs → KernelFile Descs Proto → KernelFile Descs Proto × ℕ
  add_kernel_func_desc d kf = (
    record {
      kernel_functions =
          emplace kf.func_ids (record { descs = d; protos = [] }) kf.kernel_functions;
      func_ids = next kf.func_ids;
      dir_filename = kf.dir_filename;
    },
    kf.func_ids,
  )

  -- `false` stands for -1: the function does not exist.
  unfoldable pub add_kernel_func_proto :
      ℕ → Proto → KernelFile Descs Proto → KernelFile Descs Proto × Bool
  add_kernel_func_proto func_id p kf = elim (find func_id kf.kernel_functions) [
    | none ↦ (kf, false)
    | some entry ↦ (
      record {
        kernel_functions =
            modify func_id (λ en. record { descs = en.descs; protos = en.protos ++ p ∷ [] })
              kf.kernel_functions;
        func_ids = kf.func_ids;
        dir_filename = kf.dir_filename;
      },
      true,
    )
  ]

  unfoldable pub get_func_ids : KernelFile Descs Proto → List ℕ
  get_func_ids kf = keys_of kf.kernel_functions

  -- Without the function there is no result to refer to: `none`.
  unfoldable pub get_function : ℕ → KernelFile Descs Proto → Option (KernelEntry Descs Proto)
  get_function func_id kf = find func_id kf.kernel_functions

  unfoldable pub create_entry : Text → Text → KernelDb Descs Proto → KernelDb Descs Proto × ℕ
  create_entry dir filename db = (
    record {
      kernel_files =
          emplace db.kf_cnt
            (record { kernel_functions = []; func_ids = 0; dir_filename = (dir, filename) })
            db.kernel_files;
      kf_cnt = next db.kf_cnt;
    },
    db.kf_cnt,
  )

  abbrev pub with_files :
      List (ℕ × KernelFile Descs Proto) → KernelDb Descs Proto → KernelDb Descs Proto
  with_files files db = record { kernel_files = files; kf_cnt = db.kf_cnt }

  -- The id of the function, or `none` for -1: the file does not exist.
  unfoldable pub add_kernel_info :
      ℕ → Descs → KernelDb Descs Proto → KernelDb Descs Proto × Option ℕ
  add_kernel_info fid d db = elim (find fid db.kernel_files) [
    | none ↦ (db, none)
    | some kf ↦ (
      with_files (modify fid (λ k. (add_kernel_func_desc d k).0) db.kernel_files) db,
      some (add_kernel_func_desc d kf).1,
    )
  ]

  -- What `add_kernel_func_proto` returns is not looked at.
  unfoldable pub add_function_info :
      ℕ → ℕ → Proto → KernelDb Descs Proto → KernelDb Descs Proto × Bool
  add_function_info fid func_id p db = elim (find fid db.kernel_files) [
    | none ↦ (db, false)
    | some kf ↦ (
      with_files (modify fid (λ k. (add_kernel_func_proto func_id p k).0) db.kernel_files) db,
      true,
    )
  ]

  unfoldable pub remove_kernel_file : ℕ → KernelDb Descs Proto → KernelDb Descs Proto
  remove_kernel_file fid db = with_files (erase fid db.kernel_files) db

  unfoldable pub get_kernel_file : ℕ → KernelDb Descs Proto → Option (KernelFile Descs Proto)
  get_kernel_file fid db = find fid db.kernel_files

  unfoldable pub get_kernel_file_ids : KernelDb Descs Proto → List ℕ
  get_kernel_file_ids db = keys_of db.kernel_files
