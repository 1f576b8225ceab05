-- ===== src/Context/Reachable.antt =====
-- The contexts that the tracer gets into, from the registration of the tracee on.
use optrace.Prelude.{
  ℕ, zero, suc, ◌+◌, ◌≡◌, refl, ap, ◌∙◌, inl, inr, Bool, true, false, Option, none, some, [], ◌∷◌,
  ◌++◌, length, set, ◌==◌, if◌then◌else◌, arith, Bool-cases, Option-cases, length-append, eq_of_==,
}
use native.Mathlib.Nat.{le_refl}
use optrace.Prelude.Int.{is_zero}
use optrace.Host.{Host}
use optrace.Utils.{told, my_highest_fd}
use optrace.Options.{Options}
use optrace.FileState.{new_file_state}
use optrace.Types.{ProcState}
use optrace.Context.{Context, new_context, Cmd, undefined, and_then, skip, modify, ◌>>◌}
use optrace.Context.Objects.{fds_of, slot, resize, modify_fds, allocate_file}
use optrace.Context.Descriptors.{read_link, fd_path}
use optrace.Context.Lifecycle.{
  is_file, fill_fds_loop, fill_fds, register_tracee, new_proc_state, assign_proc, emplace_leader,
}
use optrace.Context.WellFormed.{IsWellFormed}
use optrace.Context.Live.{IsLive, Ends, Ends-and_then, add_file-IsLive, assigned-IsLive}
use optrace.Context.Safety.{StaysLive, Unreadable, read_link-Ends, open_slot-IsLive}
use optrace.Context.Slots.{slot-resize}
use optrace.Context.Enrol.{stored-IsWellFormed, enrolled-IsWellFormed, enrolled-HasLeader}

-- What the code takes for granted of the tracer's own descriptors: /proc/self/status tells their number
-- in its first 511 bytes, the open ones can be looked at, and 0 is not the highest.
pub record HasFds (h : Host) : Type 0 where
  pub told_highest : (highest : Option ℕ) × (my_highest_fd h ≡ told highest)
  pub not_zero : my_highest_fd h ≡ told (some 0) → ⊥
  pub looked_at :
      (fd flags : ℕ)
      → h.fd_flags fd ≡ some flags
      → (regular : Bool) × (h.fd_is_file fd ≡ some regular)

new_context-IsWellFormed : (opts : Options) → IsWellFormed (new_context opts)
unfolding new_context
new_context-IsWellFormed opts = record {
  files = λ a fd r e. absurd (ground arith);
  procs = λ a m. absurd (ground arith);
  led = λ a m. absurd (ground arith);
  leaders = λ pid m. absurd (ground arith);
}

module _ (h : Host) (pid a : ℕ) where
  -- The body of the loop of `FillFds`, for a descriptor with its flags.
  abbrev fill_one : ℕ → ℕ → Cmd (Unit {0}) → Cmd (Unit {0})
  fill_one fd flags rest c = and_then (read_link h (fd_path pid fd) c) λ filename d.
      and_then (allocate_file (new_file_state (h.stat filename) filename flags) d)
        λ r e. rest (modify_fds a (λ fds. set fds fd (some r)) e)

  fill_one-Ends :
      (fd flags : ℕ) (rest : Cmd (Unit {0})) (c : Context)
      → IsLive pid a c
      → ((d : Context) → IsLive pid a d → Ends (Unreadable h) (StaysLive pid a) (rest d))
      → Ends (Unreadable h) (StaysLive pid a) (fill_one fd flags rest c)
  unfolding allocate_file
  fill_one-Ends fd flags rest c live next =
      Ends-and_then (Unreadable h) (StaysLive pid a) (StaysLive pid a)
        (read_link h (fd_path pid fd) c) _ (read_link-Ends h pid a (fd_path pid fd) c live)
        (λ filename d here.
          let s = new_file_state (h.stat filename) filename flags in
          next _ (
            open_slot-IsLive h pid a fd (length d.files) (record d { files = d.files ++ s ∷ [] })
              (add_file-IsLive pid a d here s) (omega (arith, length-append d.files (s ∷ [])))))

  module _ (fds : HasFds h) where
    is_file-Ends :
        (fd flags : ℕ) (c : Context)
        → h.fd_flags fd ≡ some flags
        → IsLive pid a c
        → Ends (Unreadable h) (StaysLive pid a) (is_file h fd c)
    unfolding is_file
    is_file-Ends fd flags c is_open live =
        let (regular, e) = fds.looked_at fd flags is_open in rw (e, Ends) live

    fill_fds_loop-Ends :
        (n : ℕ) (c : Context)
        → IsLive pid a c
        → Ends (Unreadable h) (StaysLive pid a) (fill_fds_loop h a pid n c)
    unfolding fill_fds_loop
    fill_fds_loop-Ends zero c live = live
    fill_fds_loop-Ends (suc fd) c live = elim (Option-cases (h.fd_flags fd)) [
      | inl e ↦ rw (e, Ends) (fill_fds_loop-Ends fd c live)
      | inr (flags, e) ↦
          rw (e, Ends)
            (Ends-and_then (Unreadable h) (StaysLive pid a) (StaysLive pid a) (is_file h fd c) _
              (is_file-Ends fd flags c e live)
              (λ regular d here.
                on_file flags regular d here (λ e next. fill_fds_loop-Ends fd e next)))
    ]
      where
        on_file :
            (flags : ℕ) (regular : Bool) (d : Context)
            → IsLive pid a d
            → ((e : Context)
                → IsLive pid a e
                → Ends (Unreadable h) (StaysLive pid a) (fill_fds_loop h a pid fd e))
            → Ends (Unreadable h) (StaysLive pid a) (
                (elim regular as (λ _. Cmd (Unit {0})) [
                  | false ↦ fill_fds_loop h a pid fd
                  | true ↦ fill_one fd flags (fill_fds_loop h a pid fd)
                ])
                  d)
        on_file flags false d here next = next d here
        on_file flags true d here next =
            fill_one-Ends fd flags (fill_fds_loop h a pid fd) d here next

    fill_fds-Ends :
        (c : Context) → IsLive pid a c → Ends (Unreadable h) (StaysLive pid a) (fill_fds h a pid c)
    unfolding fill_fds
    fill_fds-Ends c live =
        let (highest, e) = fds.told_highest in
        rw (e, Ends) (on_highest highest (λ z. fds.not_zero (e ∙ ap told z)))
      where
        on_highest :
            (highest : Option ℕ)
            → (highest ≡ some 0 → ⊥)
            → Ends (Unreadable h) (StaysLive pid a) (
                (elim highest as (λ _. Cmd (Unit {0})) [
                  | none ↦ skip
                  | some n ↦
                      modify (modify_fds a (λ fds. resize fds (n + 1)))
                      >> (if n == 0 then (λ c. undefined) else fill_fds_loop h a pid (n + 1))
                ])
                  c)
        on_highest none e = live
        on_highest (some n) e = elim (Bool-cases (n == 0)) [
          | inl zero_only ↦ absurd (e (ap some (eq_of_== n 0 zero_only)))
          | inr above ↦ rw above (
              fill_fds_loop-Ends (n + 1) _ (
                assigned-IsLive pid a c live (λ fds. resize fds (n + 1))
                  (λ j q found.
                    live.well_formed.files a j q
                      (slot-resize (fds_of a c.procs) (n + 1) j q found))))
        ]

-- The data of the tracee in the empty context.
module _ (h : Host) (pid : ℕ) (opts : Options)
    (counted : is_zero opts.files_in_report ≡ false) where
  first_data : ProcState → Context
  unfolding new_context
  first_data p = record (new_context opts) { procs = p ∷ [] }

  first : ProcState → Context
  unfolding first_data
  first p = assign_proc pid 0 (emplace_leader pid (first_data p))

  first-IsLive : (p : ProcState) → ((j : ℕ) → slot p.fds j ≡ none) → IsLive pid 0 (first p)
  unfolding first first_data new_context optrace.Storage.new_storage
  first-IsLive p none_open =
      let wf =
        stored-IsWellFormed (new_context opts) (new_context-IsWellFormed opts) p [] (le_refl _)
          (λ j q e. absurd (ground (arith, none_open j))) in
      record {
        well_formed = enrolled-IsWellFormed (first_data p) wf pid 0 refl (omega arith);
        known = ground arith;
        leader = enrolled-HasLeader (first_data p) wf pid 0 refl (omega arith);
        counted = counted;
      }

  -- `RegisterTracee` in a new context, whose report limit is not 0, returns with the tracee live, or
  -- ends the tracer for a link that cannot be read, if the tracer's descriptors are as in `HasFds`.
  pub register_tracee-Ends :
      HasFds h → Ends (Unreadable h) (StaysLive pid 0) (register_tracee h pid (new_context opts))
  unfolding register_tracee new_context new_proc_state first first_data
  register_tracee-Ends fds = fill_fds-Ends h pid 0 fds (first _) (first-IsLive _ (λ j. refl))
