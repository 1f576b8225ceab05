-- ===== src/Context/Twins.antt =====
-- Duplicated descriptors stand for the same open file.
use optrace.Prelude.{
  ℕ, ◌≡◌, refl, ap, sym, subst, ◌∙◌, Bool, true, false, Option, none, some, List, ◌==◌, set,
  get_elem?-set_ne, arith, Bool-cases, Option-cases, inl, inr,
}
use optrace.Host.{Host}
use optrace.FileState.{FileState}
use optrace.Context.{Context, Cmd, Outcome, done, aborted, exited, undefined}
use optrace.Context.Objects.{fds_of, slot, get_proc_state}
use optrace.Context.Descriptors.{grow, on_open_file, op_close, share_slot, op_dup2}
use optrace.Context.Steps.{and_then-done, get_proc_state-some}
use optrace.Context.Live.{IsLive, Ends, Ends-and_then}
use optrace.Context.Safety.{StaysLive, Unreadable, op_close-Ends, shared-IsLive}
use optrace.Context.WellFormed.{is_mapped_of_find}
use optrace.Prelude.Maps.{find}
use optrace.Context.Slots.{slot-grow, slot-set_self, grow-enough, fds_of-modify_self}

pub slot-set_other :
    (fds : List (Option ℕ)) (fd j r : ℕ)
    → (fd == j) ≡ false
    → slot (set fds fd (some r)) j ≡ slot fds j
slot-set_other fds fd j r e =
    ap (λ o. elim o as (λ _. Option ℕ) [ none ↦ none | some p ↦ p ])
      (get_elem?-set_ne fds fd j (some r) (λ same. absurd (ground arith)))

module _ (h : Host) (pid a : ℕ) where
  -- If the call has shared the file, both descriptors are open, for the same file.
  abbrev Twins : (oldfd newfd : ℕ) → Bool → Context → Type 0
  Twins oldfd newfd shared c =
      IsLive pid a c
      × (shared ≡ true
          → (r : ℕ) × (slot (fds_of a c.procs) oldfd ≡ some r)
            × (slot (fds_of a c.procs) newfd ≡ some r))

  share_slot-Twins :
      (oldfd newfd : ℕ) (c : Context)
      → (oldfd == newfd) ≡ false
      → IsLive pid a c
      → Ends (Unreadable h) (Twins oldfd newfd) (share_slot a oldfd newfd c)
  unfolding share_slot optrace.Context.Safety.Shares
  share_slot-Twins oldfd newfd c differ live = elim (Option-cases (slot (fds_of a c.procs) oldfd)) [
    | inl e ↦ rw e (live, λ t. absurd (ground arith))
    | inr (r, e) ↦
        let f : List (Option ℕ) → List (Option ℕ) = λ fds. set (grow newfd fds) newfd (some r) in
        let written =
          fds_of-modify_self c.procs a f
            (live.well_formed.procs a (is_mapped_of_find pid a c.proc_map live.known)) in
        rw e (
          (shared-IsLive h pid a oldfd newfd r c live e).0,
          λ t. (
            r,
            ap (λ fds. slot fds oldfd) written
                ∙ slot-set_other (grow newfd (fds_of a c.procs)) newfd oldfd r (ground arith)
                ∙ slot-grow newfd (fds_of a c.procs) oldfd
                ∙ e,
            ap (λ fds. slot fds newfd) written
                ∙ slot-set_self (grow newfd (fds_of a c.procs)) newfd r
                    (grow-enough newfd (fds_of a c.procs)),
          ),
        )
  ]

  op_dup2-Twins :
      (oldfd newfd : ℕ) (c : Context)
      → IsLive pid a c
      → Ends (Unreadable h) (Twins oldfd newfd) (op_dup2 pid oldfd newfd c)
  unfolding op_dup2
  op_dup2-Twins oldfd newfd c live =
      subst (Ends (Unreadable h) (Twins oldfd newfd))
        (sym (and_then-done (get_proc_state pid c) _ (get_proc_state-some pid a c live.known)))
        (elim (Bool-cases (oldfd == newfd)) [
          | inl same ↦ rw same (live, λ t. absurd (ground arith))
          | inr differ ↦ rw differ (elim (Option-cases (slot (fds_of a c.procs) newfd)) [
            | inl e ↦ rw e (share_slot-Twins oldfd newfd c differ live)
            | inr (r, e) ↦ rw e (
                Ends-and_then (Unreadable h) (StaysLive pid a) (Twins oldfd newfd)
                  (op_close pid newfd c) _ (op_close-Ends h pid a newfd c live)
                  (λ _ d next. share_slot-Twins oldfd newfd d differ next))
          ])
        ])

  twin_calls :
      (oldfd newfd r : ℕ) (c : Context) (f : FileState → FileState)
      → find pid c.proc_map ≡ some a
      → slot (fds_of a c.procs) oldfd ≡ some r
      → slot (fds_of a c.procs) newfd ≡ some r
      → on_open_file pid oldfd f c ≡ on_open_file pid newfd f c
  unfolding on_open_file
  twin_calls oldfd newfd r c f known old new =
      let found = and_then-done (get_proc_state pid c) _ (get_proc_state-some pid a c known) in
      found
      ∙ rw (old, new) refl
      ∙ sym (and_then-done (get_proc_state pid c) _ (get_proc_state-some pid a c known))

  -- After `OpDup2` of a live thread that has shared a file, what is done through either descriptor
  -- (a write, a resize, a seek or a change of the flags) has the same result as through the other;
  -- `OpDup2` ends as the other operations do.
  pub op_dup2-on_open_file :
      (oldfd newfd : ℕ) (c : Context)
      → IsLive pid a c
      → Ends
          (Unreadable h)
          (λ shared c'.
            IsLive pid a c'
            × (shared ≡ true
                → (f : FileState → FileState)
                → on_open_file pid oldfd f c' ≡ on_open_file pid newfd f c'))
          (op_dup2 pid oldfd newfd c)
  op_dup2-on_open_file oldfd newfd c live =
      weaken (op_dup2 pid oldfd newfd c) (op_dup2-Twins oldfd newfd c live)
    where
      weaken :
          (o : Outcome Bool)
          → Ends (Unreadable h) (Twins oldfd newfd) o
          → Ends
              (Unreadable h)
              (λ shared c'.
                IsLive pid a c'
                × (shared ≡ true
                    → (f : FileState → FileState)
                    → on_open_file pid oldfd f c' ≡ on_open_file pid newfd f c'))
              o
      weaken (done shared d) (still, held) = (
        still,
        λ t f. let (r, old, new) = held t in twin_calls oldfd newfd r d f still.known old new,
      )
      weaken aborted q = absurd q
      weaken (exited n) q = q
      weaken undefined q = absurd q
