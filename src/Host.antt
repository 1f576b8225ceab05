-- ===== src/Host.antt =====
-- What the operating system answers while one event is handled: the files, links and directories
-- that the program looks at, and libc's `fnmatch`. Every handler takes a `Host`, so the answers may
-- change from one event to the next.
use optrace.Prelude.{ℕ, Bool, Option, List, Text}

-- `struct dirent`: `is_regular` is `d_type == DT_REG`.
pub record DirEntry : Type 0 where
  pub is_regular : Bool
  pub d_name : Text

pub record Host : Type 0 where
  -- The bytes of a file that can be opened.
  pub read_file : Text → Option Text
  -- `st_size`, where `stat` succeeds.
  pub stat : Text → Option ℕ
  -- The target of a link, where `readlink` succeeds.
  pub read_link : Text → Option Text
  pub getcwd : Option Text
  -- The entries of a directory that can be opened, in the order of `readdir`.
  pub read_dir : Text → Option (List DirEntry)
  -- `fnmatch(pattern, string, FNM_NOESCAPE) == 0`.
  pub fnmatch : Text → Text → Bool
  -- The tracer's own descriptors: `fcntl(fd, F_GETFD)` and `S_ISREG` of `fstat(fd)`, where they do not
  -- fail.
  pub fd_flags : ℕ → Option ℕ
  pub fd_is_file : ℕ → Option Bool
