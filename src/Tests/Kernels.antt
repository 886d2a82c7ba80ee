-- ===== src/Tests/Kernels.antt =====
-- virtualization_agent/common/src/kernel_db.cc at a table with one file.
use multi_agent_accelerator.Kernels.{
  KernelDb, KernelFile, create_entry, get_function, get_kernel_file,
}
use multi_agent_accelerator.Kernels.Clines.{
  KernelDescs, generate_cline, get_all_clines, get_kernel_cline, succ,
}
use multi_agent_accelerator.Kernels.Ids.{create_entry-fresh}
use multi_agent_accelerator.Kernels.Listing.{get_all_clines-get_kernel_cline}
use multi_agent_accelerator.Prelude.{
  IsBelow, Text, [], arith, codes, none, refl, some, ℕ, ◌∷◌, ◌≡◌, ◌≢◌,
}

abbrev gemm_file : KernelFile Text Text
gemm_file = record {
  kernel_functions = (0, record { descs = codes "gemm"; protos = [] }) ∷ [];
  func_ids = 1;
  dir_filename = (codes "/", codes "gemm.so");
}

abbrev db : KernelDb Text Text
db = record { kernel_files = (0, gemm_file) ∷ []; kf_cnt = 1 }

ran : Unit {0}
unfolding get_kernel_file get_function
ran = tt

create_entry-fresh_example :
    (db' : KernelDb Text Text) × (fid : ℕ) × (create_entry (codes "/") (codes "b.so") db
      ≡ (db', fid))
    × (get_kernel_file fid db ≡ none)
    × (get_kernel_file fid db'
        ≡ some (record {
          kernel_functions = [];
          func_ids = 0;
          dir_filename = (codes "/", codes "b.so");
        }))
    × ((j : ℕ) → j ≢ fid → get_kernel_file j db' ≡ get_kernel_file j db)
    × IsBelow db'.kf_cnt db'.kernel_files
create_entry-fresh_example =
    create_entry-fresh (codes "/") (codes "b.so") db (omega arith, tt) (omega arith)

abbrev axpy : KernelDescs
axpy = record {
  khd = record { vid = codes "1"; pid = codes "2"; ss_vid = codes "3"; ss_pid = codes "4" };
  ksd = record { sw_vid = codes "5"; sw_pid = codes "6" };
  kfd = record {
    func_name = codes "axpy";
    sw_class_id = codes "7";
    sw_func_id = codes "8";
    sw_ver_id = codes "9";
  };
}

abbrev axpy_file : KernelFile KernelDescs Text
axpy_file = record {
  kernel_functions = (0, record { descs = axpy; protos = [] }) ∷ [];
  func_ids = 1;
  dir_filename = (codes "/opt", codes "axpy.so");
}

abbrev axpy_db : KernelDb KernelDescs Text
axpy_db = record { kernel_files = (0, axpy_file) ∷ []; kf_cnt = 1 }

get_all_clines-get_kernel_cline_example :
    (get_kernel_cline 0 0 [] axpy_db
      ≡ some (succ, generate_cline (codes "/opt", codes "axpy.so") axpy))
    × (get_all_clines [] axpy_db ≡ some (succ, []))
unfolding ran
get_all_clines-get_kernel_cline_example =
    get_all_clines-get_kernel_cline 0 0 [] [] axpy_file (record { descs = axpy; protos = [] })
      axpy_db refl refl

axpy_line :
    generate_cline (codes "/opt", codes "axpy.so") axpy
    ≡ codes "path=/opt,fname=axpy.so,id=1:2:3:4:5:6:axpy:7:8:9,mac_addr=0:0:0:0:0:0,xFunction=[xml]"
unfolding generate_cline
axpy_line = refl
