-- ===== src/Kernels/Clines.antt =====
-- virtualization_agent/common/src/kernel_intf.cc: the lines of text that describe the functions of
-- the files of kernels. The calls that pass a request on to the table are in the table's module.
use multi_agent_accelerator.Kernels.{
  KernelDb, get_func_ids, get_function, get_kernel_file, get_kernel_file_ids,
}
use multi_agent_accelerator.Prelude.{
  Bool, List, Option, Text, [], codes, if◌then◌else◌, nat_eq, none, not, some, ℕ, ◌++◌, ◌==◌, ◌>>=◌,
  ◌∷◌,
}

-- pico_return, without the text of its error: 0 is success, and as a Boolean it tells an error.
pub record PicoReturn : Type 0 where
  pub ret_val : ℕ

abbrev pub is_err : PicoReturn → Bool
is_err ki = not (ki.ret_val == 0)

abbrev pub succ : PicoReturn
succ = record { ret_val = 0 }

-- The descriptors of a function, each with the texts that its line names.
pub record KernelHwDesc : Type 0 where
  pub vid : Text
  pub pid : Text
  pub ss_vid : Text
  pub ss_pid : Text

pub record KernelSwDesc : Type 0 where
  pub sw_vid : Text
  pub sw_pid : Text

pub record KernelFuncDesc : Type 0 where
  pub func_name : Text
  pub sw_class_id : Text
  pub sw_func_id : Text
  pub sw_ver_id : Text

pub record KernelDescs : Type 0 where
  pub khd : KernelHwDesc
  pub ksd : KernelSwDesc
  pub kfd : KernelFuncDesc

abbrev pub hw_cache_like_fmt : KernelHwDesc → Text
hw_cache_like_fmt d = d.vid ++ codes ":" ++ d.pid ++ codes ":" ++ d.ss_vid ++ codes ":" ++ d.ss_pid

abbrev pub sw_cache_like_fmt : KernelSwDesc → Text
sw_cache_like_fmt d = d.sw_vid ++ codes ":" ++ d.sw_pid

abbrev pub func_cache_like_fmt : KernelFuncDesc → Text
func_cache_like_fmt d =
    d.func_name
    ++ codes ":"
    ++ d.sw_class_id
    ++ codes ":"
    ++ d.sw_func_id
    ++ codes ":"
    ++ d.sw_ver_id

unfoldable pub generate_cline : Text × Text → KernelDescs → Text
generate_cline loc d =
    codes "path="
    ++ loc.0
    ++ codes ","
    ++ codes "fname="
    ++ loc.1
    ++ codes ","
    ++ codes "id="
    ++ hw_cache_like_fmt d.khd
    ++ codes ":"
    ++ sw_cache_like_fmt d.ksd
    ++ codes ":"
    ++ func_cache_like_fmt d.kfd
    ++ codes ","
    ++ codes "mac_addr=0:0:0:0:0:0,"
    ++ codes "xFunction=[xml]"

module _ {Proto : Type 0} where
  -- The line is an out parameter. The function that looks a file up returns nothing for a missing
  -- one, and a function that does not exist is copied from nowhere: `none`.
  unfoldable pub get_kernel_cline :
      ℕ → ℕ → Text → KernelDb KernelDescs Proto → Option (PicoReturn × Text)
  get_kernel_cline fid func_id cline db = elim (get_kernel_file fid db) [
    | none ↦ none
    | some kern_file ↦ do
      entry ← get_function func_id kern_file
      some (succ, generate_cline kern_file.dir_filename entry.descs)
  ]

  -- The loop over the functions of a file. A line is kept if `ki` holds.
  unfoldable pub clines_of :
      ℕ → List ℕ → List Text → KernelDb KernelDescs Proto → Option (List Text)
  clines_of fid [] clines db = some clines
  clines_of fid (func_id ∷ func_ids) clines db = do
    r ← get_kernel_cline fid func_id [] db
    clines_of fid func_ids (if is_err r.0 then clines ++ r.1 ∷ [] else clines) db

  unfoldable pub get_all_clines_infile :
      ℕ → List Text → KernelDb KernelDescs Proto → Option (PicoReturn × List Text)
  unfolding clines_of
  get_all_clines_infile fid clines db = elim (get_kernel_file fid db) [
    | none ↦ none
    | some kern_file ↦ do
      clines' ← clines_of fid (get_func_ids kern_file) clines db
      some (succ, clines')
  ]

  -- The loop over the files. What it returns for a file is only printed.
  unfoldable pub clines_in : List ℕ → List Text → KernelDb KernelDescs Proto → Option (List Text)
  clines_in [] clines db = some clines
  clines_in (file_id ∷ file_ids) clines db = do
    r ← get_all_clines_infile file_id clines db
    clines_in file_ids r.1 db

  unfoldable pub get_all_clines :
      List Text → KernelDb KernelDescs Proto → Option (PicoReturn × List Text)
  unfolding clines_in
  get_all_clines clines db = do
    clines' ← clines_in (get_kernel_file_ids db) clines db
    some (succ, clines')
