-- ===== src/Seccomp/Ends.antt =====
-- The machine of the filter always comes to an end.
use optrace.Prelude.{
  ℕ, zero, suc, ◌<◌, ◌≡◌, refl, ap, ◌∙◌, Bool, true, ◌&&◌, ◌⊎◌, inl, inr, Option, some, List, [],
  ◌∷◌, length, ltb, ◌==◌, if◌then◌else◌, bit_and, arith, Bool-cases, eq_of_==,
}
use optrace.Prelude.Maps.{member}
use optrace.Seccomp.{
  SeccompData, Instr, ld_abs, jeq, jset, ret, load, run, open_block, openat_block, fcntl_block,
  syscall_blocks, filter, verdict, seccomp_ret_allow, seccomp_ret_trace,
}

-- Both ends of a jump are among the `n` instructions after it.
abbrev lands : ℕ → Instr → Bool
lands n (ld_abs offset) = ltb 0 n
lands n (jeq k jt jf) = ltb jt n && ltb jf n
lands n (jset k jt jf) = ltb jt n && ltb jf n
lands n (ret k) = true

-- No instruction of the program leads past its end, so that the last one is a return.
unfoldable pub checked : List Instr → Bool
checked [] = true
checked (i ∷ is) = lands (length is) i && checked is

-- What a program may return.
abbrev pub answers : List Instr → List ℕ
answers [] = []
answers (ld_abs offset ∷ is) = answers is
answers (jeq k jt jf ∷ is) = answers is
answers (jset k jt jf ∷ is) = answers is
answers (ret k ∷ is) = k ∷ answers is

-- The machine stops with `k`, which is among the answers.
abbrev Stops : List ℕ → Option ℕ → Type 0
Stops ks o = (k : ℕ) × (o ≡ some k) × (member k ks ≡ true)

later : (n : ℕ) (ks : List ℕ) (o : Option ℕ) → Stops ks o → Stops (n ∷ ks) o
later n ks o (k, e, m) = (k, e, ground arith)

run-Stops :
    (is : List Instr) (d : SeccompData) (acc skip : ℕ)
    → checked is ≡ true
    → skip < length is
    → Stops (answers is) (run d acc skip is)
unfolding run checked
run-Stops [] d acc skip c l = absurd (omega arith)
run-Stops (ld_abs offset ∷ is) d acc zero c l =
    run-Stops is d (load d offset) 0 (ground arith) (ground arith)
run-Stops (ld_abs offset ∷ is) d acc (suc skip) c l =
    run-Stops is d acc skip (ground arith) (omega arith)
run-Stops (jeq k jt jf ∷ is) d acc zero c l =
    run-Stops is d acc (if acc == k then jt else jf) (ground arith) (ground arith)
run-Stops (jeq k jt jf ∷ is) d acc (suc skip) c l =
    run-Stops is d acc skip (ground arith) (omega arith)
run-Stops (jset k jt jf ∷ is) d acc zero c l =
    run-Stops is d acc (if bit_and acc k == 0 then jf else jt) (ground arith) (ground arith)
run-Stops (jset k jt jf ∷ is) d acc (suc skip) c l =
    run-Stops is d acc skip (ground arith) (omega arith)
run-Stops (ret k ∷ is) d acc zero c l = (k, refl, ground arith)
run-Stops (ret k ∷ is) d acc (suc skip) c l =
    later k (answers is) (run d acc skip is) (run-Stops is d acc skip (ground arith) (omega arith))

filter-checked : checked filter ≡ true
unfolding checked filter open_block openat_block fcntl_block syscall_blocks
filter-checked = refl

filter-answers :
    (k : ℕ) → member k (answers filter) ≡ true → (k ≡ seccomp_ret_trace) ⊎ (k ≡ seccomp_ret_allow)
unfolding filter open_block openat_block fcntl_block syscall_blocks
filter-answers k m = elim (Bool-cases (k == seccomp_ret_trace)) [
  | inl e ↦ inl (eq_of_== k seccomp_ret_trace e)
  | inr n ↦ inr (ground arith)
]

-- No instruction of the filter leads past its end, and on every system call, whatever its number and
-- its arguments, its run comes to a return, which asks for a stop or lets the call pass.
pub verdict-checked :
    (checked filter ≡ true)
    × ((d : SeccompData)
        → (verdict d ≡ some seccomp_ret_trace) ⊎ (verdict d ≡ some seccomp_ret_allow))
unfolding verdict
verdict-checked = (filter-checked, λ d. on d (run-Stops filter d 0 0 filter-checked starts))
  where
    starts : 0 < length filter
    starts = omega arith

    on :
        (d : SeccompData)
        → Stops (answers filter) (run d 0 0 filter)
        → (run d 0 0 filter ≡ some seccomp_ret_trace) ⊎ (run d 0 0 filter ≡ some seccomp_ret_allow)
    on d (k, e, m) = elim (filter-answers k m) [
      | inl t ↦ inl (e ∙ ap some t)
      | inr t ↦ inr (e ∙ ap some t)
    ]
