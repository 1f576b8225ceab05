-- ===== src/Context/Vanish.antt =====
-- `VanishProcess`: the loop that closes all descriptors of a process.
use optrace.Prelude.{
  ℕ, zero, suc, ◌+◌, ◌≤◌, ◌<◌, ◌≡◌, refl, sym, ap, subst, ◌∙◌, true, false, Option, none, some,
  List, [], ◌∷◌, length, get_elem?, ltb, leb, ◌==◌, if◌then◌else◌, arith, Bool-cases, Option-cases,
  inl, inr, eq_of_==,
}
use native.Mathlib.Nat.{add-zero}
use optrace.Prelude.Int.{is_zero}
use optrace.FileState.{FileState}
use optrace.Types.{ProcInfoPtr, ProcState}
use optrace.Storage.Queue.{list_queue}
use optrace.Storage.Largest.{output_size-add_file_entry}
use optrace.Types.{new_output_file}
use optrace.Context.{Context, done, and_then}
use optrace.Context.Objects.{fds_of, slot, is_mapped, use_count, torn_down, tear_down_fd}
use optrace.Context.Counts.{cleared, length-cleared, slot-cleared}
use optrace.Context.Balance.{balance, SameMaps, torn_down_last, torn_down_shared, torn_down-balance}
use optrace.Context.Lifecycle.{tear_down_loop}

-- Every pointer of a process leads to a file.
abbrev pub HasFiles : Context → Type 0
HasFiles c = (a fd r : ℕ) → slot (fds_of a c.procs) fd ≡ some r → r < length c.files

-- `c'` is `c` with the slots from `lo` up to `hi` of the process at `a` cleared, and what they held
-- closed.
pub record Closed (a lo hi : ℕ) (c c' : Context) : Type 0 where
  pub maps : SameMaps c c'
  pub count : length c'.procs ≡ length c.procs
  pub slots :
      (b j : ℕ)
      → slot (fds_of b c'.procs) j ≡ (
          if a == b
          then (if leb lo j
              then (if ltb j hi then none else slot (fds_of b c.procs) j)
              else slot (fds_of b c.procs) j)
          else slot (fds_of b c.procs) j)
  pub balanced : balance c' ≡ balance c

pub lookup_file :
    (files : List FileState) (r : ℕ)
    → r < length files
    → (s : FileState) × (get_elem? files r ≡ some s)
lookup_file [] r h = elim h [ ]
lookup_file (f ∷ fs) zero h = (f, refl)
lookup_file (f ∷ fs) (suc r) h = lookup_file fs r (omega arith)

SameMaps-refl : (c : Context) → SameMaps c c
SameMaps-refl c = record {
  proc_map = refl;
  group_leaders = refl;
  files = refl;
  capacity = refl;
  options = refl;
}

SameMaps-trans : {c d e : Context} → SameMaps c d → SameMaps d e → SameMaps c e
SameMaps-trans p q = record {
  proc_map = q.proc_map ∙ p.proc_map;
  group_leaders = q.group_leaders ∙ p.group_leaders;
  files = q.files ∙ p.files;
  capacity = q.capacity ∙ p.capacity;
  options = q.options ∙ p.options;
}

Closed-empty : (a lo : ℕ) (c : Context) → Closed a lo lo c c
Closed-empty a lo c = record {
  maps = SameMaps-refl c;
  count = refl;
  slots = λ b j. ground arith;
  balanced = refl;
}

Closed-trans :
    (a lo mid hi : ℕ) (c d e : Context)
    → lo ≤ mid
    → mid ≤ hi
    → Closed a lo mid c d
    → Closed a mid hi d e
    → Closed a lo hi c e
Closed-trans a lo mid hi c d e below above p q = record {
  maps = SameMaps-trans p.maps q.maps;
  count = q.count ∙ p.count;
  slots = λ b j. ground (arith, q.slots b j, p.slots b j);
  balanced = q.balanced ∙ p.balanced;
}

cleared_range : (S : ℕ → ℕ → Option ℕ) (a lo hi b j : ℕ) → Option ℕ
cleared_range S a lo hi b j =
    if a == b then (if leb lo j then (if ltb j hi then none else S b j) else S b j) else S b j

one_slot :
    (S : ℕ → ℕ → Option ℕ) (a fd b j : ℕ)
    → cleared_range S a fd (suc fd) b j
      ≡ (if a == b then (if fd == j then none else S b j) else S b j)
unfolding cleared_range
one_slot S a fd b j = ground arith

none_slot :
    (S : ℕ → ℕ → Option ℕ) (a fd b j : ℕ)
    → S a fd ≡ none
    → S b j ≡ cleared_range S a fd (suc fd) b j
unfolding cleared_range
none_slot S a fd b j h = ground arith

-- An empty slot needs no closing.
Closed-none :
    (a fd : ℕ) (c : Context) → slot (fds_of a c.procs) fd ≡ none → Closed a fd (suc fd) c c
unfolding cleared_range
Closed-none a fd c h = record {
  maps = SameMaps-refl c;
  count = refl;
  slots = λ b j. none_slot (λ b j. slot (fds_of b c.procs) j) a fd b j h;
  balanced = refl;
}

torn_down-SameMaps :
    (a fd r : ℕ) (s : FileState) (pinfo : ProcInfoPtr) (c : Context)
    → is_zero c.file_storage.capacity ≡ false
    → get_elem? c.files r ≡ some s
    → SameMaps c (torn_down a fd r pinfo c)
      × ((torn_down a fd r pinfo c).procs ≡ cleared a fd c.procs)
torn_down-SameMaps a fd r s pinfo c z e = elim (Bool-cases (use_count c r == 1)) [
  | inl last ↦ rw (torn_down_last a fd r s pinfo c e (eq_of_== (use_count c r) 1 last)) (
    record {
      proc_map = refl;
      group_leaders = refl;
      files = refl;
      options = refl;
      capacity =
          (output_size-add_file_entry list_queue (new_output_file s pinfo) c.file_storage z).0;
    },
    refl,
  )
  | inr more ↦ rw (torn_down_shared a fd r pinfo c more) (
    record { proc_map = refl; group_leaders = refl; files = refl; capacity = refl; options = refl },
    refl,
  )
]

pub Closed-torn_down :
    (a fd r : ℕ) (s : FileState) (pinfo : ProcInfoPtr) (c : Context)
    → is_zero c.file_storage.capacity ≡ false
    → is_mapped a c.proc_map ≡ true
    → slot (fds_of a c.procs) fd ≡ some r
    → get_elem? c.files r ≡ some s
    → Closed a fd (suc fd) c (torn_down a fd r pinfo c)
unfolding cleared_range
Closed-torn_down a fd r s pinfo c z m p e =
    let (same, procs) = torn_down-SameMaps a fd r s pinfo c z e in
    record {
      maps = same;
      count = ap length procs ∙ length-cleared a fd c.procs;
      slots = λ b j.
          ap (λ (ps : List ProcState). slot (fds_of b ps) j) procs
          ∙ slot-cleared c.procs a fd b j
          ∙ sym (one_slot (λ b j. slot (fds_of b c.procs) j) a fd b j);
      balanced = torn_down-balance a fd r s c m p e pinfo z;
    }

-- What the steps of the loop need, and keep.
record CanClose (a : ℕ) (c : Context) : Type 0 where
  counted : is_zero c.file_storage.capacity ≡ false
  alive : is_mapped a c.proc_map ≡ true
  files : HasFiles c

pub HasFiles-Closed :
    (a lo hi : ℕ) (c c' : Context) → Closed a lo hi c c' → HasFiles c → HasFiles c'
HasFiles-Closed a lo hi c c' k h b j r e =
    let old : slot (fds_of b c.procs) j ≡ some r = ground (arith, k.slots b j) in
    omega (arith, h b j r old, ap length k.maps.files)

CanClose-Closed :
    (a lo hi : ℕ) (c c' : Context) → Closed a lo hi c c' → CanClose a c → CanClose a c'
CanClose-Closed a lo hi c c' k h = record {
  counted = ap is_zero k.maps.capacity ∙ h.counted;
  alive = ap (is_mapped a) k.maps.proc_map ∙ h.alive;
  files = HasFiles-Closed a lo hi c c' k h.files;
}

pub tear_down_fd-some :
    (a fd r : ℕ) (pinfo : ProcInfoPtr) (c : Context)
    → slot (fds_of a c.procs) fd ≡ some r
    → tear_down_fd a fd pinfo c ≡ done tt (torn_down a fd r pinfo c)
unfolding tear_down_fd
tear_down_fd-some a fd r pinfo c e = rw (e, tear_down_fd) refl

-- One round of the loop.
tear_down_step :
    (a fd : ℕ) (pinfo : ProcInfoPtr) (c : Context)
    → CanClose a c
    → (c' : Context) × Closed a fd (suc fd) c c'
      × ((n : ℕ) → tear_down_loop a pinfo fd (suc n) c ≡ tear_down_loop a pinfo (suc fd) n c')
unfolding tear_down_loop
tear_down_step a fd pinfo c h = elim (Option-cases (slot (fds_of a c.procs) fd)) [
  | inl e ↦ (c, Closed-none a fd c e, λ n. rw e refl)
  | inr (r, e) ↦
      let (s, at) = lookup_file c.files r (h.files a fd r e) in
      (
        torn_down a fd r pinfo c,
        Closed-torn_down a fd r s pinfo c h.counted h.alive e at,
        λ n. rw e (
            ap (λ o. and_then o (λ _. tear_down_loop a pinfo (suc fd) n))
              (tear_down_fd-some a fd r pinfo c e)),
      )
]

-- The loop closes the slots that it goes over, and no other.
pub tear_down_loop-Closed :
    (n a fd : ℕ) (pinfo : ProcInfoPtr) (c : Context)
    → is_zero c.file_storage.capacity ≡ false
    → is_mapped a c.proc_map ≡ true
    → HasFiles c
    → (c' : Context) × (tear_down_loop a pinfo fd n c ≡ done tt c') × Closed a fd (fd + n) c c'
unfolding tear_down_loop
tear_down_loop-Closed zero a fd pinfo c z m f = (c, refl, rw add-zero (Closed-empty a fd c))
tear_down_loop-Closed (suc n) a fd pinfo c z m f =
    let can : CanClose a c = record { counted = z; alive = m; files = f } in
    let (d, first, run) = tear_down_step a fd pinfo c can in
    let can' = CanClose-Closed a fd (suc fd) c d first can in
    let (e, rest, closed) =
      tear_down_loop-Closed n a (suc fd) pinfo d can'.counted can'.alive can'.files in
    (
      e,
      run n ∙ rest,
      Closed-trans a fd (suc fd) (fd + suc n) c d e (omega arith) (omega arith) first
          (subst (λ hi. Closed a (suc fd) hi d e) (omega arith) closed),
    )
