-- ===== src/Seccomp/Blocks.antt =====
-- What each block of the filter does with the accumulator, whatever follows it.
use optrace.Prelude.{
  ℕ, ◌%◌, ◌^◌, ◌≡◌, refl, not, ◌||◌, some, List, [], ◌∷◌, ◌++◌, ◌==◌, if◌then◌else◌, bit_and, arith,
}
use optrace.Prelude.Maps.{member}
use optrace.Prelude.Bits.{bit_and-zero}
use optrace.Abi.{sys_open, sys_openat, sys_fcntl}
use optrace.Context.Descriptors.{opens_for_writing}
use optrace.Seccomp.{
  SeccompData, Instr, run, open_block, openat_block, fcntl_block, syscall_blocks, seccomp_ret_trace,
  seccomp_ret_allow,
}

module _ (d : SeccompData) (acc : ℕ) (rest : List Instr) where
  -- A call that does not open for writing falls through with its flags in the accumulator.
  pub run-open_block : run d acc 0 (open_block ++ rest) ≡ (
      if acc == sys_open
      then (if opens_for_writing (d.args 1 % 2 ^ 32)
          then some seccomp_ret_trace
          else run d (d.args 1 % 2 ^ 32) 0 rest)
      else run d acc 0 rest)
  unfolding run open_block
  run-open_block = ground arith

  pub run-openat_block : run d acc 0 (openat_block ++ rest) ≡ (
      if acc == sys_openat
      then (if opens_for_writing (d.args 2 % 2 ^ 32)
          then some seccomp_ret_trace
          else run d (d.args 2 % 2 ^ 32) 0 rest)
      else run d acc 0 rest)
  unfolding run openat_block
  run-openat_block = ground arith

  -- The commands are tested as bit masks, and `F_DUPFD`, which is 0, has no bit.
  pub run-fcntl_block : run d acc 0 (fcntl_block ++ rest) ≡ (
      if acc == sys_fcntl
      then (if (not (bit_and (d.args 1 % 2 ^ 32) 1030 == 0)
              || not (bit_and (d.args 1 % 2 ^ 32) 4 == 0))
            || not (bit_and (d.args 1 % 2 ^ 32) 2 == 0)
          then some seccomp_ret_trace
          else run d (d.args 1 % 2 ^ 32) 0 rest)
      else run d acc 0 rest)
  unfolding run fcntl_block
  run-fcntl_block = ground (arith, bit_and-zero (d.args 1 % 2 ^ 32))

pub run-syscall_blocks :
    (d : SeccompData) (acc : ℕ) (nrs : List ℕ)
    → run d acc 0 (syscall_blocks nrs)
      ≡ some (if member acc nrs then seccomp_ret_trace else seccomp_ret_allow)
unfolding run syscall_blocks
run-syscall_blocks d acc [] = refl
run-syscall_blocks d acc (nr ∷ nrs) = ground (arith, run-syscall_blocks d acc nrs)
