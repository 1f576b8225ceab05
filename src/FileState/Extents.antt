-- ===== src/FileState/Extents.antt =====
-- The counters of a file against the byte ranges that its calls wrote.
use Prim.Native.Nat.{max}
use optrace.Prelude.{
  ℕ, ◌+◌, ◌-◌, ◌^◌, ◌≤◌, ◌<◌, ◌≡◌, refl, some, List, [], ◌∷◌, ◌∙◌, All, arith, Bool, true, false,
}
use optrace.FileState.{
  FileState, enroll, enroll_no_shift, set_curr_pos, set_flags, set_cloexec_flag, get_output_size,
  copy_file_state, get_file_length,
}

-- What the tracer hears of one file between its opening and its closing.
pub data FileOp : Type 0 where
  writes : ℕ → FileOp
  pwrites : ℕ → ℕ → FileOp
  seeks : ℕ → FileOp
  flags : ℕ → FileOp
  cloexec : Bool → FileOp

unfoldable pub apply : FileOp → FileState → FileState
apply (writes n) s = enroll n s
apply (pwrites n offset) s = enroll_no_shift n offset s
apply (seeks pos) s = set_curr_pos pos s
apply (flags f) s = set_flags f s
apply (cloexec on) s = set_cloexec_flag on s

unfoldable pub apply_all : List FileOp → FileState → FileState
unfolding apply
apply_all [] s = s
apply_all (op ∷ ops) s = apply_all ops (apply op s)

-- The ends of the ranges written from a cursor, without wrap-around.
abbrev pub ends : ℕ → List FileOp → List ℕ
ends pos [] = []
ends pos (writes n ∷ ops) = (pos + n) ∷ ends (pos + n) ops
ends pos (pwrites n offset ∷ ops) = (offset + n) ∷ ends pos ops
ends pos (seeks p ∷ ops) = ends p ops
ends pos (flags f ∷ ops) = ends pos ops
ends pos (cloexec on ∷ ops) = ends pos ops

abbrev pub farthest : ℕ → List ℕ → ℕ
farthest m [] = m
farthest m (e ∷ es) = farthest (max m e) es

-- Every written range ends within the address range of a `size_t`.
abbrev pub InRange : ℕ → List FileOp → Type 0
InRange pos ops = All (λ e. e < 2 ^ 64) (ends pos ops)

enroll_fields :
    (n : ℕ) (s : FileState)
    → s.curr_pos + n < 2 ^ 64
    → ((enroll n s).curr_pos ≡ s.curr_pos + n)
      × ((enroll n s).max_pos ≡ max s.max_pos (s.curr_pos + n))
unfolding enroll
enroll_fields n s h = ground arith

enroll_no_shift_fields :
    (n offset : ℕ) (s : FileState)
    → offset + n < 2 ^ 64
    → ((enroll_no_shift n offset s).curr_pos ≡ s.curr_pos)
      × ((enroll_no_shift n offset s).max_pos ≡ max s.max_pos (offset + n))
unfolding enroll_no_shift
enroll_no_shift_fields n offset s h = ground arith

set_cloexec_flag_fields :
    (on : Bool) (s : FileState)
    → ((set_cloexec_flag on s).curr_pos ≡ s.curr_pos)
      × ((set_cloexec_flag on s).max_pos ≡ s.max_pos)
      × ((set_cloexec_flag on s).init_size ≡ s.init_size)
unfolding set_cloexec_flag
set_cloexec_flag_fields true s = (refl, refl, refl)
set_cloexec_flag_fields false s = (refl, refl, refl)

-- The cursor and the maximum are variables, so that a step can put in what it makes of them.
apply_all_from :
    (ops : List FileOp) (s : FileState) (pos m : ℕ)
    → s.curr_pos ≡ pos
    → s.max_pos ≡ m
    → InRange pos ops
    → (apply_all ops s).max_pos ≡ farthest m (ends pos ops)
unfolding apply_all apply set_curr_pos set_flags
apply_all_from [] s pos m p q h = q
apply_all_from (writes n ∷ ops) s pos m p q h =
    let fields = enroll_fields n s (omega arith) in
    apply_all_from ops (enroll n s) (pos + n) (max m (pos + n)) (omega (arith, fields.0))
      (omega (arith, fields.1)) h.1
apply_all_from (pwrites n offset ∷ ops) s pos m p q h =
    let fields = enroll_no_shift_fields n offset s h.0 in
    apply_all_from ops (enroll_no_shift n offset s) pos (max m (offset + n))
      (omega (arith, fields.0)) (omega (arith, fields.1)) h.1
apply_all_from (seeks p ∷ ops) s pos m e q h = apply_all_from ops (set_curr_pos p s) p m refl q h
apply_all_from (flags f ∷ ops) s pos m e q h = apply_all_from ops (set_flags f s) pos m e q h
apply_all_from (cloexec on ∷ ops) s pos m e q h =
    let fields = set_cloexec_flag_fields on s in
    apply_all_from ops (set_cloexec_flag on s) pos m (fields.0 ∙ e) (fields.1 ∙ q) h

init_size-apply_all :
    (ops : List FileOp) (s : FileState) → (apply_all ops s).init_size ≡ s.init_size
unfolding apply_all apply enroll enroll_no_shift set_curr_pos set_flags
init_size-apply_all [] s = refl
init_size-apply_all (writes n ∷ ops) s = ground (arith, init_size-apply_all ops (enroll n s))
init_size-apply_all (pwrites n o ∷ ops) s =
    ground (arith, init_size-apply_all ops (enroll_no_shift n o s))
init_size-apply_all (seeks p ∷ ops) s = init_size-apply_all ops (set_curr_pos p s)
init_size-apply_all (flags f ∷ ops) s = init_size-apply_all ops (set_flags f s)
init_size-apply_all (cloexec on ∷ ops) s =
    init_size-apply_all ops (set_cloexec_flag on s) ∙ (set_cloexec_flag_fields on s).2

-- Whatever calls a file sees (all those of `TFileState` that change one), in whatever order: if no written range ends past the address range of
-- a `size_t`, the size it reports is the distance from its initial length to the farthest end of a
-- written range (or the earlier maximum, if that is farther), and 0 where nothing went past it.
pub get_output_size-apply_all :
    (ops : List FileOp) (s : FileState)
    → InRange s.curr_pos ops
    → get_output_size (apply_all ops s) ≡ farthest s.max_pos (ends s.curr_pos ops) - s.init_size
unfolding get_output_size
get_output_size-apply_all ops s h =
    ground (arith, apply_all_from ops s s.curr_pos s.max_pos refl refl h, init_size-apply_all ops s)

-- The copy that a child process gets of a descriptor reports nothing of its own while it is not
-- written to, if the file is then at least as long as the range that the parent wrote.
get_output_size-copy_file_state :
    (st_size : ℕ) (s : FileState)
    → s.max_pos ≤ st_size
    → (ops : List FileOp) → ends s.curr_pos ops ≡ []
    → get_output_size (apply_all ops (copy_file_state (some st_size) s)) ≡ 0
unfolding copy_file_state get_file_length
get_output_size-copy_file_state st_size s h ops e =
    let t = copy_file_state (some st_size) s in
    get_output_size-apply_all ops t (rw e tt) ∙ rw e (omega arith)
