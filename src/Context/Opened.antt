-- ===== src/Context/Opened.antt =====
-- The context after `OpOpenWriteFile`: the descriptor holds a file of its own.
use optrace.Prelude.{
  ℕ, suc, ◌+◌, ◌<◌, ◌≡◌, refl, ap, ◌∙◌, Bool, true, false, none, some, List, [], ◌∷◌, ◌++◌, Text,
  length, set, ◌==◌, if◌then◌else◌, arith, Bool-cases, inl, inr, Option, eq_of_==, length-append,
  get_elem?-append_length,
}
use native.Mathlib.Nat.{zero-add}
use optrace.Prelude.Int.{ℤ, is_zero}
use optrace.Host.{Host}
use optrace.FileState.{FileState, new_file_state}
use optrace.Types.{ProcState}
use optrace.Context.{Context, done, skip}
use optrace.Context.Objects.{
  fds_of, slot, update_fds, modify_fds, modify_at, allocate_file, occurrences, is_mapped, use_count,
  count_refs, get_proc_state,
}
use optrace.Context.Descriptors.{
  grow, read_link, fd_path, process_interruption_target, op_open_write_file,
}
use optrace.Context.Counts.{cleared, count_refs-cleared, slot-cleared}
use optrace.Context.Steps.{and_then-done, get_proc_state-some}
use optrace.Context.Slots.{
  slot-grow, slot-set_self, grow-enough, length-modify_at, fds_of-modify_self, fds_of-modify_other,
}
use optrace.Context.Twins.{slot-set_other}
use optrace.Context.Live.{IsLive, add_file-IsLive, is_mapped-IsLive}
use optrace.Context.Safety.{grown-IsLive, open_slot-IsLive}
use optrace.Context.Held.{Held, SameTable}

occurrences-unheld :
    (r : ℕ) (fds : List (Option ℕ)) → ((j : ℕ) → slot fds j ≡ some r → ⊥) → occurrences r fds ≡ 0
occurrences-unheld r [] h = refl
occurrences-unheld r (none ∷ fds) h = omega (arith, occurrences-unheld r fds (λ j. h (suc j)))
occurrences-unheld r (some q ∷ fds) h = elim (Bool-cases (q == r)) [
  | inl same ↦ absurd (h 0 (ap some (eq_of_== q r same)))
  | inr other ↦ rw other (omega (arith, occurrences-unheld r fds (λ j. h (suc j))))
]

-- What no slot points to is not counted.
pub count_refs-unheld :
    (m : List (ℕ × ℕ)) (r s : ℕ) (procs : List ProcState)
    → ((b j : ℕ) → slot (fds_of b procs) j ≡ some r → ⊥)
    → count_refs m r s procs ≡ 0
unfolding count_refs
count_refs-unheld m r s [] h = refl
count_refs-unheld m r s (p ∷ ps) h =
    ground
      (arith, occurrences-unheld r p.fds (h 0), count_refs-unheld m r (suc s) ps (λ b. h (suc b)))

module _ (h : Host) (pid a fd : ℕ) (s : FileState) (kills : List (ℕ × ℤ)) (c : Context)
    (live : IsLive pid a c) where
  -- The vector has grown, the file is new, and perhaps a signal was sent.
  abbrev pub stocked : Context
  stocked = record (modify_fds a (grow fd) c) { files = c.files ++ s ∷ []; kills = kills }

  abbrev pub opened_at : Context
  opened_at = modify_fds a (λ fds. set fds fd (some (length c.files))) stocked

  stocked-IsLive : IsLive pid a stocked
  unfolding modify_fds
  stocked-IsLive =
      let next =
        add_file-IsLive pid a (modify_fds a (grow fd) c) (grown-IsLive h pid a fd c live) s in
      record {
        well_formed = record {
          files = next.well_formed.files;
          procs = next.well_formed.procs;
          led = next.well_formed.led;
          leaders = next.well_formed.leaders;
        };
        known = next.known;
        leader = next.leader;
        counted = next.counted;
      }

  opened_at-IsLive : IsLive pid a opened_at
  opened_at-IsLive =
      open_slot-IsLive h pid a fd (length c.files) stocked stocked-IsLive
        (omega (arith, length-append c.files (s ∷ [])))

  below : a < length c.procs
  below = live.well_formed.procs a (is_mapped-IsLive pid a c live)

  own_fds : fds_of a opened_at.procs ≡ set (grow fd (fds_of a c.procs)) fd (some (length c.files))
  unfolding modify_fds
  own_fds =
      let store : List (Option ℕ) → List (Option ℕ) = λ fds. set fds fd (some (length c.files)) in
      let grown = modify_at c.procs a (update_fds (grow fd)) in
      fds_of-modify_self grown a store
        (omega (arith, below, length-modify_at c.procs a (update_fds (grow fd))))
      ∙ ap store (fds_of-modify_self c.procs a (grow fd) below)

  own_slot : slot (fds_of a opened_at.procs) fd ≡ some (length c.files)
  own_slot =
      ap (λ fds. slot fds fd) own_fds
      ∙ slot-set_self (grow fd (fds_of a c.procs)) fd (length c.files)
          (grow-enough fd (fds_of a c.procs))

  -- But for the one slot, the vectors hold what they held before.
  opened_at-slots :
      (b j : ℕ)
      → slot (fds_of b (cleared a fd opened_at.procs)) j ≡ (
          if a == b
          then (if fd == j then none else slot (fds_of b c.procs) j)
          else slot (fds_of b c.procs) j)
  unfolding modify_fds
  opened_at-slots b j = elim (Bool-cases (a == b)) [
    | inl same ↦ elim (Bool-cases (fd == j)) [
      | inl here ↦ ground (arith, slot-cleared opened_at.procs a fd b j)
      | inr there ↦
          let old : slot (fds_of a opened_at.procs) j ≡ slot (fds_of a c.procs) j =
            ap (λ fds. slot fds j) own_fds
            ∙ slot-set_other (grow fd (fds_of a c.procs)) fd j (length c.files) there
            ∙ slot-grow fd (fds_of a c.procs) j in
          ground (
            arith,
            slot-cleared opened_at.procs a fd b j,
            old,
            ap (λ n. slot (fds_of n opened_at.procs) j) (eq_of_== a b same),
            ap (λ n. slot (fds_of n c.procs) j) (eq_of_== a b same),
          )
    ]
    | inr other ↦
        let old : fds_of b opened_at.procs ≡ fds_of b c.procs =
          fds_of-modify_other (modify_at c.procs a (update_fds (grow fd))) a b
            (λ fds. set fds fd (some (length c.files))) other
          ∙ fds_of-modify_other c.procs a b (grow fd) other in
        ground (arith, slot-cleared opened_at.procs a fd b j, ap (λ fds. slot fds j) old)
  ]

  other_slots :
      (b j : ℕ) → slot (fds_of b (cleared a fd opened_at.procs)) j ≡ some (length c.files) → ⊥
  other_slots b j e =
      absurd (ground (arith, opened_at-slots b j, live.well_formed.files b j (length c.files)))

  pub opened_at-Held : Held pid a fd (length c.files) s opened_at
  unfolding modify_fds use_count
  opened_at-Held = record {
    live = opened_at-IsLive;
    pointer = own_slot;
    file = get_elem?-append_length c.files s;
    alone =
        let m : is_mapped (0 + a) c.proc_map ≡ true = rw zero-add (is_mapped-IsLive pid a c live) in
        let none_left =
          count_refs-unheld c.proc_map (length c.files) 0 (cleared a fd opened_at.procs)
            other_slots in
        let drop = count_refs-cleared c.proc_map (length c.files) 0 opened_at.procs a fd m in
        ground (arith, none_left, drop, own_slot);
  }

-- The signal of the interruption target, if any, changes the list of the signals only.
signalled :
    (h : Host) (pid : ℕ) (unset : Bool) (name : Text) (c : Context)
    → (kills : List (ℕ × ℤ)) × ((if unset then skip else process_interruption_target h pid name) c
        ≡ done tt (record c { kills = kills }))
unfolding process_interruption_target
signalled h pid true name c = (c.kills, refl)
signalled h pid false name c = elim (Bool-cases (h.fnmatch c.options.interruption_target name)) [
  | inl e ↦ ((pid, c.options.interruption_signal) ∷ c.kills, rw e refl)
  | inr e ↦ (c.kills, rw e refl)
]

read_link-some :
    (h : Host) (path name : Text) (c : Context)
    → h.read_link path ≡ some name
    → read_link h path c ≡ done name c
unfolding read_link
read_link-some h path name c e = rw (e, read_link) refl

-- An opening for writing returns, and the descriptor then holds a new file of its own.
pub op_open_write_file-Held :
    (h : Host) (pid a fd flags : ℕ) (name : Text) (c : Context)
    → IsLive pid a c
    → h.read_link (fd_path pid fd) ≡ some name
    → (c' : Context) × (op_open_write_file h pid fd flags c ≡ done tt c')
      × Held pid a fd (length c.files) (new_file_state (h.stat name) name flags) c'
      × SameTable c c'
      × ((b j : ℕ)
          → slot (fds_of b (cleared a fd c'.procs)) j ≡ (
              if a == b
              then (if fd == j then none else slot (fds_of b c.procs) j)
              else slot (fds_of b c.procs) j))
unfolding op_open_write_file allocate_file modify_fds
op_open_write_file-Held h pid a fd flags name c live link =
    let grown = modify_fds a (grow fd) c in
    let s = new_file_state (h.stat name) name flags in
    let (kills, sent) = signalled h pid (is_zero c.options.interruption_signal) name grown in
    (
      opened_at h pid a fd s kills c live,
      and_then-done (get_proc_state pid c) _ (get_proc_state-some pid a c live.known)
          ∙ and_then-done (read_link h (fd_path pid fd) grown) _
              (read_link-some h (fd_path pid fd) name grown link)
          ∙ and_then-done
              ((if is_zero c.options.interruption_signal
                  then skip
                  else process_interruption_target h pid name)
                grown)
              _ sent,
      opened_at-Held h pid a fd s kills c live,
      record { proc_map = refl; file_storage = refl },
      opened_at-slots h pid a fd s kills c live,
    )
