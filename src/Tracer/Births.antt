-- ===== src/Tracer/Births.antt =====
-- A new child in `RunTracer`: its registration and its first stop.
use optrace.Prelude.{
  ℕ, ◌≡◌, refl, ap, ◌∙◌, Bool, true, false, not, ◌&&◌, List, [], ◌∷◌, ◌==◌, if◌then◌else◌, arith,
  bit_and,
}
use optrace.Prelude.Int.{pos}
use optrace.Prelude.Maps.{insert, erase, has_key}
use optrace.Abi.{syscall_trap, event_fork, event_vfork, event_clone, clone_thread}
use optrace.Context.{Context, Outcome, done}
use optrace.Context.Lifecycle.{register_process, register_thread}
use optrace.Tracer.{
  Status, stopped, Wait, changed, Request, restart_syscall, continue_syscall, get_event_msg, Reply,
  returned, Round, Config, Tracer, Verdict, goes_on, syscall_undefined, calls, ptrace_safe_call,
  resume, ask,
}
use optrace.Tracer.Rounds.{
  get_clone_flags, state_of, resume_thread, after_event, release_child, register_child, on_event,
  on_stop, on_wait, step, continue_run, run_rounds,
}
use optrace.Tracer.Stops.{resume-returned, Answering}

pub insert_twice {ℓ} :
    {V : Type ℓ} (k : ℕ) (v : V) (m : List (ℕ × V)) → insert k v (insert k v m) ≡ insert k v m
insert_twice k v [] = ground arith
insert_twice k v ((j, w) ∷ m) = ground (arith, insert_twice k v m)

pub erase-insert {ℓ} :
    {V : Type ℓ} (k : ℕ) (v : V) (m : List (ℕ × V))
    → has_key k m ≡ false
    → erase k (insert k v m) ≡ m
erase-insert k v [] e = ground arith
erase-insert k v ((j, w) ∷ m) e = ground (arith, erase-insert k v m)

-- The events of a new child: whether it is a thread.
pub data IsBirth (round : Round) (pid : ℕ) : ℕ → Bool → Type 0 where
  fork : IsBirth round pid event_fork false
  vfork : IsBirth round pid event_vfork false
  clone :
      (flags : ℕ)
      → round.reply (get_clone_flags pid) ≡ returned (pos flags)
      → IsBirth round pid event_clone (not (bit_and flags clone_thread == 0))

-- The request that lets a thread go on outside of a system-call stop.
abbrev pub go_on_with : Config → ℕ → ℕ → Request
go_on_with cfg pid sig =
    if cfg.use_sec_comp then continue_syscall pid sig else restart_syscall pid sig

-- The registration of a child.
abbrev pub registered : Round → ℕ → Bool → ℕ → Context → Outcome (Unit {0})
registered round pid is_thread child c =
    if is_thread then register_thread pid child c else register_process round.host pid child c

birth_is_event :
    (round : Round) (pid event : ℕ) (is_thread : Bool)
    → IsBirth round pid event is_thread
    → (event == 0) ≡ false
birth_is_event round pid _ _ fork = refl
birth_is_event round pid _ _ vfork = refl
birth_is_event round pid _ _ (clone flags seen) = refl

module _ (cfg : Config) (round : Round) where
  resumed-go_on_with :
      (pid sig : ℕ) (s : Tracer) (k : Tracer → Verdict)
      → Answering round pid
      → resume round (go_on_with cfg pid sig) s k
        ≡ k (record s { resumed = go_on_with cfg pid sig ∷ s.resumed })
  resumed-go_on_with pid sig s k answering = either cfg.use_sec_comp
    where
      either :
          (b : Bool)
          → (resume round (if b then continue_syscall pid sig else restart_syscall pid sig) s k)
            ≡ k (record s {
              resumed =
                  (if b then continue_syscall pid sig else restart_syscall pid sig) ∷ s.resumed;
            })
      either true =
          resume-returned round (continue_syscall pid sig) s k (answering.continue sig).0
            (answering.continue sig).1
      either false =
          resume-returned round (restart_syscall pid sig) s k (answering.restart sig).0
            (answering.restart sig).1

  pub after_event-plain :
      (pid sig : ℕ) (s : Tracer)
      → Answering round pid
      → after_event cfg round pid false sig s
        ≡ goes_on (record s { resumed = go_on_with cfg pid sig ∷ s.resumed })
  unfolding after_event resume_thread
  after_event-plain pid sig s answering = either cfg.use_sec_comp
    where
      either :
          (b : Bool)
          → (if b && true
              then resume round (continue_syscall pid sig) s goes_on
              else resume round (restart_syscall pid sig) s goes_on)
            ≡ goes_on (record s {
              resumed =
                  (if b then continue_syscall pid sig else restart_syscall pid sig) ∷ s.resumed;
            })
      either true =
          resume-returned round (continue_syscall pid sig) s goes_on (answering.continue sig).0
            (answering.continue sig).1
      either false =
          resume-returned round (restart_syscall pid sig) s goes_on (answering.restart sig).0
            (answering.restart sig).1

  on_event-birth :
      (pid child event sig : ℕ) (is_thread : Bool) (s : Tracer)
      → round.reply (get_event_msg pid) ≡ returned (pos child)
      → IsBirth round pid event is_thread
      → on_event cfg round pid event sig false s
        ≡ register_child cfg round pid is_thread child s (after_event cfg round pid false sig)
  unfolding on_event ask ptrace_safe_call
  on_event-birth pid child _ sig _ s told fork = rw told refl
  on_event-birth pid child _ sig _ s told vfork = rw told refl
  on_event-birth pid child _ sig _ s told (clone flags seen) = rw (told, seen) refl

  pub register_child-known :
      (pid child : ℕ) (is_thread : Bool) (s : Tracer) (c : Context) (k : Tracer → Verdict)
      → registered round pid is_thread child s.context ≡ done tt c
      → has_key child s.suspended_threads ≡ false
      → register_child cfg round pid is_thread child s k
        ≡ k (record s {
          context = c;
          syscall_state_map = insert child syscall_undefined s.syscall_state_map;
        })
  unfolding register_child release_child calls
  register_child-known pid child is_thread s c k run new = rw (run, new) refl

  pub register_child-suspended :
      (pid child : ℕ) (is_thread : Bool) (s : Tracer) (c : Context) (k : Tracer → Verdict)
      → Answering round child
      → registered round pid is_thread child s.context ≡ done tt c
      → has_key child s.suspended_threads ≡ true
      → register_child cfg round pid is_thread child s k
        ≡ k (record {
          context = c;
          suspended_threads = erase child s.suspended_threads;
          syscall_state_map =
              insert child syscall_undefined (insert child syscall_undefined s.syscall_state_map);
          tracee_exit_code = s.tracee_exit_code;
          resumed = go_on_with cfg child 0 ∷ s.resumed;
        })
  unfolding register_child release_child calls
  register_child-suspended pid child is_thread s c k answering run here =
      rw (run, here)
        (resumed-go_on_with child 0
          (record {
            context = c;
            suspended_threads = erase child s.suspended_threads;
            syscall_state_map = insert child syscall_undefined s.syscall_state_map;
            tracee_exit_code = s.tracee_exit_code;
            resumed = s.resumed;
          })
          (λ v.
            k (record v { syscall_state_map = insert child syscall_undefined v.syscall_state_map }))
          answering)

  pub step-birth :
      (pid child event sig : ℕ) (is_thread : Bool) (s : Tracer)
      → round.wait ≡ changed pid (stopped sig event)
      → (sig == syscall_trap) ≡ false
      → has_key pid s.syscall_state_map ≡ true
      → round.reply (get_event_msg pid) ≡ returned (pos child)
      → IsBirth round pid event is_thread
      → step cfg round s
        ≡ register_child cfg round pid is_thread child s (after_event cfg round pid false sig)
  unfolding step on_wait optrace.Tracer.Rounds.on_status on_stop
  step-birth pid child event sig is_thread s w plain here told birth =
      ap (λ v. on_wait cfg round v s) w
      ∙ rw (on_stop, here, birth_is_event round pid event is_thread birth, plain)
          (on_event-birth pid child event sig is_thread s told birth)

  pub step-first_stop :
      (child sig : ℕ) (s : Tracer)
      → round.wait ≡ changed child (stopped sig 0)
      → has_key child s.syscall_state_map ≡ false
      → step cfg round s
        ≡ goes_on
            (record s { suspended_threads = insert child (stopped sig 0) s.suspended_threads })
  unfolding step on_wait optrace.Tracer.Rounds.on_status on_stop
  step-first_stop child sig s w unknown =
      ap (λ v. on_wait cfg round v s) w ∙ rw (on_stop, unknown) refl

  pub step-known_stop :
      (child sig : ℕ) (s : Tracer)
      → round.wait ≡ changed child (stopped sig 0)
      → (sig == syscall_trap) ≡ false
      → has_key child s.syscall_state_map ≡ true
      → Answering round child
      → step cfg round s ≡ goes_on (record s { resumed = go_on_with cfg child sig ∷ s.resumed })
  unfolding step on_wait optrace.Tracer.Rounds.on_status on_stop
  step-known_stop child sig s w plain known answering =
      ap (λ v. on_wait cfg round v s) w
      ∙ rw (on_stop, known, plain) (after_event-plain child sig s answering)
