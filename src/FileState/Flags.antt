-- ===== src/FileState/Flags.antt =====
-- The close-on-exec bit of a file's flags.
use optrace.Prelude.{
  ℕ, zero, suc, ◌<◌, ◌≡◌, refl, Bool, true, false, arith, ◌==◌, eq_of_==, if◌then◌else◌, Bool-cases,
  inl, inr,
}
use optrace.Prelude.Bits.{bit, bit-lt_two, bit-bit_or, bit-bit_and, bit_and-two_pow}
use optrace.FileState.{
  FileState, set_cloexec_flag, is_cloexec_set, is_append_set, o_cloexec, cloexec_mask,
}

-- The tests of one bit, as the code writes them.
is_cloexec_set-bit : (s : FileState) → is_cloexec_set s ≡ (bit 19 s.flags == 1)
unfolding is_cloexec_set
is_cloexec_set-bit s = ground (arith, bit_and-two_pow 19 s.flags, bit-lt_two 19 s.flags)

is_append_set-bit : (s : FileState) → is_append_set s ≡ (bit 10 s.flags == 1)
unfolding is_append_set
is_append_set-bit s = ground (arith, bit_and-two_pow 10 s.flags, bit-lt_two 10 s.flags)

-- The bits of the two masks below bit 64, by evaluation.
same_bits : (mask : ℕ) (expected : ℕ → ℕ) (width : ℕ) → Bool
same_bits mask expected zero = true
same_bits mask expected (suc width) =
    if bit width mask == expected width then same_bits mask expected width else false

bit_of_table :
    (mask : ℕ) (expected : ℕ → ℕ) (width j : ℕ)
    → same_bits mask expected width ≡ true
    → j < width
    → bit j mask ≡ expected j
unfolding same_bits
bit_of_table mask expected zero j h below = absurd (omega arith)
bit_of_table mask expected (suc width) j h below =
    elim (Bool-cases (bit width mask == expected width)) [
      | inr differ ↦ absurd (ground arith)
      | inl same ↦ elim (Bool-cases (j == width)) [
        | inl last ↦ rw (eq_of_== j width last) (eq_of_== (bit width mask) (expected width) same)
        | inr other ↦ bit_of_table mask expected width j (ground arith) (ground arith)
      ]
    ]

mask_table : same_bits cloexec_mask (λ j. if j == 19 then 0 else 1) 64 ≡ true
unfolding same_bits
mask_table = refl

flag_table : same_bits o_cloexec (λ j. if j == 19 then 1 else 0) 64 ≡ true
unfolding same_bits
flag_table = refl

bit-cloexec_mask : (j : ℕ) → j < 64 → bit j cloexec_mask ≡ (if j == 19 then 0 else 1)
bit-cloexec_mask j h = bit_of_table cloexec_mask _ 64 j mask_table h

bit-o_cloexec : (j : ℕ) → j < 64 → bit j o_cloexec ≡ (if j == 19 then 1 else 0)
bit-o_cloexec j h = bit_of_table o_cloexec _ 64 j flag_table h

-- Switching the close-on-exec flag writes bit 19 alone: that bit is what was asked for, and each
-- other bit of the 64-bit word stays; and the positions and the initial size are as before.
pub bit-set_cloexec_flag :
    (on : Bool) (s : FileState) (j : ℕ)
    → j < 64
    → (bit j (set_cloexec_flag on s).flags
        ≡ (if j == 19 then (if on then 1 else 0) else bit j s.flags))
      × ((set_cloexec_flag on s).curr_pos ≡ s.curr_pos)
      × ((set_cloexec_flag on s).max_pos ≡ s.max_pos)
      × ((set_cloexec_flag on s).init_size ≡ s.init_size)
unfolding set_cloexec_flag
bit-set_cloexec_flag true s j h = (
  ground (arith, bit-bit_or j s.flags o_cloexec, bit-o_cloexec j h, bit-lt_two j s.flags),
  refl,
  refl,
  refl,
)
bit-set_cloexec_flag false s j h = (
  ground (arith, bit-bit_and j s.flags cloexec_mask, bit-cloexec_mask j h, bit-lt_two j s.flags),
  refl,
  refl,
  refl,
)

-- After `SetCloexecFlag`, `IsCloexecSet` reads back what was set, and `IsAppendSet` has not changed.
is_cloexec_set-set_cloexec_flag :
    (on : Bool) (s : FileState)
    → (is_cloexec_set (set_cloexec_flag on s) ≡ on)
      × (is_append_set (set_cloexec_flag on s) ≡ is_append_set s)
is_cloexec_set-set_cloexec_flag on s = (
  rw (is_cloexec_set-bit (set_cloexec_flag on s), (bit-set_cloexec_flag on s 19 (omega arith)).0)
      (ground arith),
  rw
      (
        is_append_set-bit (set_cloexec_flag on s),
        is_append_set-bit s,
        (bit-set_cloexec_flag on s 10 (omega arith)).0,
      )
      refl,
)
