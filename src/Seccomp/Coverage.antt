-- ===== src/Seccomp/Coverage.antt =====
-- The filter against `SyscallExit`: which calls the tracer hears of, and which it would handle.
use optrace.Prelude.{
  ℕ, ◌%◌, ◌^◌, ◌≡◌, ◌≢◌, refl, sym, ap, ◌∙◌, Bool, true, false, not, ◌||◌, ◌&&◌, Option, some, ◌==◌,
  if◌then◌else◌, bit_and, arith, Bool-cases, inl, inr, int_nonneg, eq_of_==,
}
use optrace.Prelude.Maps.{member}
use optrace.Prelude.Bits.{bit_and-two_pow}
use optrace.Abi.{Registers, sys_open, sys_openat, sys_fcntl, f_dupfd}
use optrace.Host.{Host}
use optrace.Context.{Context, done}
use optrace.Context.Descriptors.{opens_for_writing, op_open_file}
use optrace.Context.Syscalls.{nothing, perform, decode, fcntl_action, syscall_exit}
use optrace.Seccomp.{
  SeccompData, verdict, data_of, tracing_syscalls, seccomp_ret_trace, seccomp_ret_allow,
}
use optrace.Seccomp.Blocks.{run-open_block, run-openat_block, run-fcntl_block, run-syscall_blocks}

-- The tests of the filter on the command of `fcntl`.
abbrev command_traced : ℕ → Bool
command_traced cmd =
    (not (bit_and cmd 1030 == 0) || not (bit_and cmd 4 == 0)) || not (bit_and cmd 2 == 0)

abbrev last_answer : ℕ → Option ℕ
last_answer acc =
    some (if member acc tracing_syscalls then seccomp_ret_trace else seccomp_ret_allow)

abbrev from_fcntl : SeccompData → ℕ → Option ℕ
from_fcntl d acc =
    if acc == sys_fcntl
    then (if command_traced (d.args 1 % 2 ^ 32)
        then some seccomp_ret_trace
        else last_answer (d.args 1 % 2 ^ 32))
    else last_answer acc

abbrev from_openat : SeccompData → ℕ → Option ℕ
from_openat d acc =
    if acc == sys_openat
    then (if opens_for_writing (d.args 2 % 2 ^ 32)
        then some seccomp_ret_trace
        else from_fcntl d (d.args 2 % 2 ^ 32))
    else from_fcntl d acc

abbrev from_open : SeccompData → ℕ → Option ℕ
from_open d acc =
    if acc == sys_open
    then (if opens_for_writing (d.args 1 % 2 ^ 32)
        then some seccomp_ret_trace
        else from_openat d (d.args 1 % 2 ^ 32))
    else from_openat d acc

verdict-from_open : (d : SeccompData) → verdict d ≡ from_open d d.nr
unfolding verdict
verdict-from_open d = simp (run-open_block, run-openat_block, run-fcntl_block, run-syscall_blocks)

low_bit : (f : ℕ) → bit_and (f % 2 ^ 32) 1 ≡ bit_and f 1
low_bit f = omega (arith, bit_and-two_pow 0 f, bit_and-two_pow 0 (f % 2 ^ 32))

second_bit : (f : ℕ) → bit_and (f % 2 ^ 32) 2 ≡ bit_and f 2
second_bit f = omega (arith, bit_and-two_pow 1 f, bit_and-two_pow 1 (f % 2 ^ 32))

opens_for_writing-low : (f : ℕ) → opens_for_writing (f % 2 ^ 32) ≡ opens_for_writing f
opens_for_writing-low f = rw (low_bit f, second_bit f)

-- A listed call is traced.
listed-traced :
    (d : SeccompData) → member d.nr tracing_syscalls ≡ true → verdict d ≡ some seccomp_ret_trace
listed-traced d h = verdict-from_open d ∙ listed d d.nr h
  where
    listed :
        (d : SeccompData) (nr : ℕ)
        → member nr tracing_syscalls ≡ true
        → from_open d nr ≡ some seccomp_ret_trace
    listed d nr h = ground arith

-- `SyscallExit` has no case for a call that is not listed, but for the three with a block of their own.
unlisted-nothing :
    (r : Registers)
    → member r.orig_rax tracing_syscalls ≡ false
    → (r.orig_rax == sys_open) ≡ false
    → (r.orig_rax == sys_openat) ≡ false
    → (r.orig_rax == sys_fcntl) ≡ false
    → decode r ≡ nothing
unfolding decode
unlisted-nothing r h o a f = ground arith

small_listed : (n : ℕ) → member n tracing_syscalls ≡ true → n % 2 ^ 32 ≡ n
small_listed n h = ground arith

trace≢allow : some seccomp_ret_trace ≢ some seccomp_ret_allow
trace≢allow e = ground arith

not_listed :
    (r : Registers)
    → verdict (data_of r) ≡ some seccomp_ret_allow
    → member r.orig_rax tracing_syscalls ≡ false
not_listed r v = elim (Bool-cases (member r.orig_rax tracing_syscalls)) [
  | inl m ↦
      absurd (trace≢allow (sym (listed-traced (data_of r) (rw (small_listed r.orig_rax m) m)) ∙ v))
  | inr m ↦ m
]

-- The three calls whose arguments the filter looks at, where it lets them pass.
module _ (r : Registers) (v : verdict (data_of r) ≡ some seccomp_ret_allow) where
  answer : from_open (data_of r) (r.orig_rax % 2 ^ 32) ≡ some seccomp_ret_allow
  answer = sym (verdict-from_open (data_of r)) ∙ v

  open-not-write : r.orig_rax ≡ sys_open → opens_for_writing r.rsi ≡ false
  open-not-write e = ground (arith, answer, opens_for_writing-low r.rsi)

  openat-not-write : r.orig_rax ≡ sys_openat → opens_for_writing r.rdx ≡ false
  openat-not-write e = ground (arith, answer, opens_for_writing-low r.rdx)

  fcntl-not-traced : r.orig_rax ≡ sys_fcntl → command_traced (r.rsi % 2 ^ 32) ≡ false
  fcntl-not-traced e = ground (arith, answer)

abbrev is_dupfd : Registers → Bool
is_dupfd r = (r.orig_rax == sys_fcntl) && (r.rsi == f_dupfd)

-- The commands that `SyscallExit` knows pass one of the tests, but for 0.
command_unknown :
    (r : Registers)
    → command_traced (r.rsi % 2 ^ 32) ≡ false
    → (r.rsi == f_dupfd) ≡ false
    → fcntl_action r ≡ nothing
unfolding fcntl_action
command_unknown r t z = elim (Bool-cases (r.rsi == 1030)) [
  | inl e ↦ absurd (known 1030 r.rsi t (eq_of_== r.rsi 1030 e) refl)
  | inr a ↦ elim (Bool-cases (r.rsi == 4)) [
    | inl e ↦ absurd (known 4 r.rsi t (eq_of_== r.rsi 4 e) refl)
    | inr b ↦ elim (Bool-cases (r.rsi == 2)) [
      | inl e ↦ absurd (known 2 r.rsi t (eq_of_== r.rsi 2 e) refl)
      | inr d ↦ rw (z, a, b, d)
    ]
  ]
]
  where
    known :
        (k cmd : ℕ)
        → command_traced (cmd % 2 ^ 32) ≡ false
        → cmd ≡ k
        → command_traced (k % 2 ^ 32) ≡ true
        → ⊥
    known k cmd t e yes_traced = ground (arith, ap (λ (n : ℕ). command_traced (n % 2 ^ 32)) e)

fcntl-nothing :
    (r : Registers) → r.orig_rax ≡ sys_fcntl → fcntl_action r ≡ nothing → decode r ≡ nothing
unfolding decode
fcntl-nothing r e n = rw (e, n) (ground arith)

open-nothing :
    (h : Host) (pid : ℕ) (r : Registers) (c : Context)
    → r.orig_rax ≡ sys_open
    → opens_for_writing r.rsi ≡ false
    → syscall_exit h pid r c ≡ done tt c
unfolding syscall_exit op_open_file
open-nothing h pid r c e w =
    rw e (elim (Bool-cases (int_nonneg r.rax)) [ inl t ↦ rw (t, w) refl | inr t ↦ rw t refl ])

openat-nothing :
    (h : Host) (pid : ℕ) (r : Registers) (c : Context)
    → r.orig_rax ≡ sys_openat
    → opens_for_writing r.rdx ≡ false
    → syscall_exit h pid r c ≡ done tt c
unfolding syscall_exit op_open_file
openat-nothing h pid r c e w =
    rw e (elim (Bool-cases (int_nonneg r.rax)) [ inl t ↦ rw (t, w) refl | inr t ↦ rw t refl ])

nothing-done :
    (h : Host) (pid : ℕ) (r : Registers) (c : Context)
    → decode r ≡ nothing
    → syscall_exit h pid r c ≡ done tt c
unfolding syscall_exit
nothing-done h pid r c e = ap (λ act. perform h pid act c) e

-- A call that the filter lets pass without a stop, other than `fcntl` with the command `F_DUPFD`, is
-- one on which `SyscallExit` does nothing, whatever the call returned and whatever the context.
pub verdict-allow :
    (h : Host) (pid : ℕ) (r : Registers) (c : Context)
    → verdict (data_of r) ≡ some seccomp_ret_allow
    → is_dupfd r ≡ false
    → syscall_exit h pid r c ≡ done tt c
verdict-allow h pid r c v n = elim (Bool-cases (r.orig_rax == sys_open)) [
  | inl e ↦
      let nr = eq_of_== r.orig_rax sys_open e in open-nothing h pid r c nr (open-not-write r v nr)
  | inr o ↦ elim (Bool-cases (r.orig_rax == sys_openat)) [
    | inl e ↦
        let nr = eq_of_== r.orig_rax sys_openat e in
        openat-nothing h pid r c nr (openat-not-write r v nr)
    | inr a ↦ elim (Bool-cases (r.orig_rax == sys_fcntl)) [
      | inl e ↦
          let nr = eq_of_== r.orig_rax sys_fcntl e in
          nothing-done h pid r c
            (fcntl-nothing r nr (command_unknown r (fcntl-not-traced r v nr) (rw e at n)))
      | inr f ↦ nothing-done h pid r c (unlisted-nothing r (not_listed r v) o a f)
    ]
  ]
]
