-- ===== src/Context/Counts.antt =====
-- Slots and reference counts after one slot is cleared.
use optrace.Prelude.{
  ℕ, zero, suc, ◌+◌, ◌≡◌, refl, ap, subst, true, Option, none, List, [], ◌∷◌, length, set, ◌==◌,
  if◌then◌else◌, arith,
}
use optrace.Types.{ProcState}
use optrace.Context.Objects.{
  fds_of, slot, update_fds, modify_at, points_to, occurrences, is_mapped, count_refs,
}

-- The vectors after `fds[fd] = nullptr` in the process at `a`.
abbrev pub cleared : ℕ → ℕ → List ProcState → List ProcState
cleared a fd procs = modify_at procs a (update_fds (λ fds. set fds fd none))

pub length-cleared :
    (a fd : ℕ) (procs : List ProcState) → length (cleared a fd procs) ≡ length procs
length-cleared a fd [] = refl
length-cleared zero fd (p ∷ ps) = refl
length-cleared (suc a) fd (p ∷ ps) = ap suc (length-cleared a fd ps)

slot-set :
    (fds : List (Option ℕ)) (fd j : ℕ)
    → slot (set fds fd none) j ≡ (if fd == j then none else slot fds j)
slot-set [] fd j = ground arith
slot-set (p ∷ fds) zero zero = refl
slot-set (p ∷ fds) zero (suc j) = ground arith
slot-set (p ∷ fds) (suc fd) zero = ground arith
slot-set (p ∷ fds) (suc fd) (suc j) = ground (arith, slot-set fds fd j)

fds_of-cleared :
    (procs : List ProcState) (a fd b : ℕ)
    → fds_of b (cleared a fd procs)
      ≡ (if a == b then set (fds_of b procs) fd none else fds_of b procs)
fds_of-cleared [] a fd b = ground arith
fds_of-cleared (p ∷ ps) zero fd zero = refl
fds_of-cleared (p ∷ ps) zero fd (suc b) = ground arith
fds_of-cleared (p ∷ ps) (suc a) fd zero = ground arith
fds_of-cleared (p ∷ ps) (suc a) fd (suc b) = ground (arith, fds_of-cleared ps a fd b)

-- One slot of one process is cleared, and no other changes.
pub slot-cleared :
    (procs : List ProcState) (a fd b j : ℕ)
    → slot (fds_of b (cleared a fd procs)) j ≡ (
        if a == b
        then (if fd == j then none else slot (fds_of b procs) j)
        else slot (fds_of b procs) j)
slot-cleared procs a fd b j =
    ground (arith, fds_of-cleared procs a fd b, slot-set (fds_of b procs) fd j)

occurrences-set :
    (fds : List (Option ℕ)) (fd q : ℕ)
    → occurrences q (set fds fd none) + points_to q (slot fds fd) ≡ occurrences q fds
occurrences-set [] fd q = refl
occurrences-set (p ∷ fds) zero q = omega arith
occurrences-set (p ∷ fds) (suc fd) q = omega (arith, occurrences-set fds fd q)

-- A live process has one pointer less to what the slot held, and as many to all else.
pub count_refs-cleared :
    (m : List (ℕ × ℕ)) (q s : ℕ) (procs : List ProcState) (a fd : ℕ)
    → is_mapped (s + a) m ≡ true
    → count_refs m q s (cleared a fd procs) + points_to q (slot (fds_of a procs) fd)
      ≡ count_refs m q s procs
unfolding count_refs
count_refs-cleared m q s [] a fd h = omega arith
count_refs-cleared m q s (p ∷ ps) zero fd h =
    let here : is_mapped s m ≡ true = subst (λ n. is_mapped n m ≡ true) (omega arith) h in
    rw here (omega (arith, occurrences-set p.fds fd q))
count_refs-cleared m q s (p ∷ ps) (suc a) fd h = omega (
  arith,
  count_refs-cleared m q (suc s) ps a fd (subst (λ n. is_mapped n m ≡ true) (omega arith) h),
)
