-- ===== src/Types.antt =====
-- The plain structures of src/types.h. A `shared_ptr` to a process's data is the address of the
-- object with the data, which never change.
use optrace.Prelude.{ℕ, Text, Option, List}
use optrace.FileState.{FileState, get_output_size}

-- TProcInfo.
pub record ProcInfo : Type 0 where
  pub pid : ℕ
  pub ppid : ℕ
  pub command_name : Text
  pub command_line : Text

-- TProcInfoPtr.
pub record ProcInfoPtr : Type 0 where
  pub address : ℕ
  pub info : ProcInfo

-- TProcState. An empty `TFileStatePtr` is `none`, any other the address of the file's state.
pub record ProcState : Type 0 where
  pub fds : List (Option ℕ)
  pub proc_info : ProcInfoPtr

-- TOutputFile.
pub record OutputFile : Type 0 where
  pub size : ℕ
  pub filename : Text
  pub proc_info : ProcInfoPtr

-- The constructor from a file's state.
unfoldable pub new_output_file : FileState → ProcInfoPtr → OutputFile
new_output_file file pinfo = record {
  size = get_output_size file;
  filename = file.filename;
  proc_info = pinfo;
}
