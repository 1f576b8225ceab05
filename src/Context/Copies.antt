-- ===== src/Context/Copies.antt =====
-- Copies of the pointers of a process in the data of a new one.
use optrace.Prelude.{
  ℕ, zero, suc, ◌+◌, ◌<◌, ◌≤◌, ◌≡◌, refl, sym, ap, ◌∙◌, inl, inr, Bool, false, Option, none, some,
  List, [], ◌∷◌, ◌++◌, length, take, ◌==◌, arith, Bool-cases, length-append,
}
use native.Mathlib.Nat.{le_refl}
use optrace.Prelude.Maps.{find}
use optrace.Host.{Host}
use optrace.FileState.{FileState, copy_file_state}
use optrace.Types.{ProcState}
use optrace.Context.{Context, Outcome, done, and_then, pure}
use optrace.Context.Objects.{fds_of, slot, get_highest_fd, allocate_file}
use optrace.Context.Lifecycle.{copy_slots, new_proc_state}
use optrace.Context.Vanish.{lookup_file}
use optrace.Context.WellFormed.{IsWellFormed, is_mapped_of_find}
use optrace.Context.Steps.{and_then-done}
use optrace.Context.Enrol.{fds_of-append, stored, stored-IsWellFormed}

abbrev pub AreValid : List (Option ℕ) → List FileState → Type 0
AreValid fds files = (j q : ℕ) → slot fds j ≡ some q → q < length files

-- The copying loop returns, adds files, and its pointers lead to files.
pub record Copied (c : Context) (o : Outcome (List (Option ℕ))) : Type 0 where
  pub fds : List (Option ℕ)
  pub files : List FileState
  pub run : o ≡ done fds (record c { files = files })
  pub grown : length c.files ≤ length files
  pub valid : AreValid fds files

AreValid-cons :
    (p : Option ℕ) (fds : List (Option ℕ)) (files : List FileState)
    → ((q : ℕ) → p ≡ some q → q < length files)
    → AreValid fds files
    → AreValid (p ∷ fds) files
AreValid-cons p fds files h rest zero q e = h q e
AreValid-cons p fds files h rest (suc j) q e = rest j q e

-- One more slot before those that were copied.
Copied-cons :
    (p : Option ℕ) (c d : Context) (o : Outcome (List (Option ℕ)))
    → d ≡ record c { files = d.files }
    → length c.files ≤ length d.files
    → ((q : ℕ) → p ≡ some q → q < length d.files)
    → Copied d o
    → Copied c (and_then o (λ rest. pure (p ∷ rest)))
Copied-cons p c d o same le h k = record {
  fds = p ∷ k.fds;
  files = k.files;
  run = and_then-done o _ k.run ∙ ap (λ e. done (p ∷ k.fds) (record e { files = k.files })) same;
  grown = omega (arith, k.grown);
  valid = AreValid-cons p k.fds k.files (λ q e. omega (arith, h q e, k.grown)) k.valid;
}

pub copy_slots-Copied :
    (h : Host) (keeps : FileState → Bool) (fds : List (Option ℕ)) (c : Context)
    → AreValid fds c.files
    → Copied c (copy_slots h keeps fds c)
unfolding copy_slots allocate_file
copy_slots-Copied h keeps [] c v = record {
  fds = [];
  files = c.files;
  run = refl;
  grown = le_refl _;
  valid = v;
}
copy_slots-Copied h keeps (none ∷ fds) c v =
    Copied-cons none c c (copy_slots h keeps fds c) refl (le_refl _) (λ q e. absurd (ground arith))
      (copy_slots-Copied h keeps fds c (λ j q e. v (suc j) q e))
copy_slots-Copied h keeps (some r ∷ fds) c v =
    let (s, at) = lookup_file c.files r (v zero r refl) in
    elim (Bool-cases (keeps s)) [
      | inr drops ↦
          rw (at, drops)
            (Copied-cons none c c (copy_slots h keeps fds c) refl (le_refl _)
              (λ q e. absurd (ground arith))
              (copy_slots-Copied h keeps fds c (λ j q e. v (suc j) q e)))
      | inl keeps_it ↦
          rw (at, keeps_it)
            (let copy = copy_file_state (h.stat s.filename) s in
              let d : Context = record c { files = c.files ++ copy ∷ [] } in
              let longer : length d.files ≡ length c.files + 1 =
                length-append c.files (copy ∷ []) in
              Copied-cons (some (length c.files)) c d (copy_slots h keeps fds d) refl
                (omega (arith, longer)) (λ q e. ground (arith, longer))
                (copy_slots-Copied h keeps fds d (λ j q e. omega (arith, longer, v (suc j) q e))))
    ]

slot-take :
    (n : ℕ) (fds : List (Option ℕ)) (j q : ℕ) → slot (take n fds) j ≡ some q → slot fds j ≡ some q
slot-take zero fds j q e = absurd (ground arith)
slot-take (suc n) [] j q e = absurd (ground arith)
slot-take (suc n) (p ∷ fds) zero q e = e
slot-take (suc n) (p ∷ fds) (suc j) q e = slot-take n fds j q e

pub new_proc_state-done :
    (h : Host) (pid ppid : ℕ) (c : Context)
    → (p : ProcState) × (new_proc_state h pid ppid c
        ≡ done (length c.procs) (record c { procs = c.procs ++ p ∷ [] }))
unfolding new_proc_state
new_proc_state-done h pid ppid c = (_, refl)

abbrev pub with_proc : Context → ProcState → Context
with_proc c p = record c { procs = c.procs ++ p ∷ [] }

-- A copy of the pointers of a known process, in the data of a new one.
module _ (h : Host) (pid a : ℕ) (c : Context) (wf : IsWellFormed c)
    (known : find pid c.proc_map ≡ some a) (cloexec_free : Bool) (keeps : FileState → Bool) where
  unfoldable pub copied_fds : ProcState → List (Option ℕ)
  copied_fds p =
      take (get_highest_fd c.files (fds_of a (with_proc c p).procs) cloexec_free)
        (fds_of a (with_proc c p).procs)

  copied_fds-AreValid : (p : ProcState) → AreValid (copied_fds p) c.files
  unfolding copied_fds
  copied_fds-AreValid p j q e =
      let old : (a == length c.procs) ≡ false =
        ground (arith, wf.procs a (is_mapped_of_find pid a c.proc_map known)) in
      let same : fds_of a (with_proc c p).procs ≡ fds_of a c.procs =
        fds_of-append c.procs p a ∙ rw old refl in
      wf.files a j q (
        ap (λ fds. slot fds j) (sym same)
        ∙ slot-take (get_highest_fd c.files (fds_of a (with_proc c p).procs) cloexec_free) _ j q e)

  pub copied_fds-Copied :
      (p : ProcState) → Copied (with_proc c p) (copy_slots h keeps (copied_fds p) (with_proc c p))
  copied_fds-Copied p =
      copy_slots-Copied h keeps (copied_fds p) (with_proc c p) (copied_fds-AreValid p)

  module _ (p : ProcState)
      (k : Copied (with_proc c p) (copy_slots h keeps (copied_fds p) (with_proc c p))) where
    -- The context with the data of the new process.
    unfoldable pub child_data : Context
    child_data = stored c wf (record p { fds = k.fds }) k.files k.grown k.valid

    pub child_data-IsWellFormed : IsWellFormed child_data
    unfolding child_data
    child_data-IsWellFormed =
        stored-IsWellFormed c wf (record p { fds = k.fds }) k.files k.grown k.valid

    pub child_below : length c.procs < length child_data.procs
    unfolding child_data
    child_below = omega (arith, length-append c.procs (record p { fds = k.fds } ∷ []))
