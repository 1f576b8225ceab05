-- ===== src/Tracer/Stops.antt =====
-- A system call of a thread in `RunTracer`: the stop at its entry and the stop at its exit.
use optrace.Prelude.{
  ℕ, ◌≡◌, refl, ap, ◌∙◌, Bool, true, false, ◌&&◌, some, List, [], ◌∷◌, ◌==◌, if◌then◌else◌, arith,
}
use optrace.Prelude.Int.{ℤ, pos}
use optrace.Prelude.Maps.{find, insert, has_key, find-insert}
use optrace.Abi.{syscall_trap, event_seccomp}
use optrace.Context.{Context, done}
use optrace.Context.Syscalls.{syscall_exit}
use optrace.Tracer.{
  Status, stopped, Wait, changed, Request, restart_syscall, continue_syscall, get_event_msg,
  get_regs, Reply, returned, Round, Config, Tracer, Verdict, goes_on, syscall_undefined, no_entry,
  calls, ptrace_safe_call, resume, ask,
}
use optrace.Tracer.Rounds.{
  state_of, get_syscall_number, resume_thread, on_registers, after_event, on_event, on_stop,
  on_wait, step, continue_run, run_rounds,
}

pub resume-returned :
    (round : Round) (req : Request) (s : Tracer) (k : Tracer → Verdict) (v : ℤ)
    → round.reply req ≡ returned v
    → resume round req s k ≡ k (record s { resumed = req ∷ s.resumed })
unfolding resume ptrace_safe_call
resume-returned round req s k v e = rw e refl

pub ask-returned :
    (round : Round) (pid : ℕ) (req : Request) (s : Tracer) (k : ℕ → Verdict) (n : ℕ)
    → round.reply req ≡ returned (pos n)
    → ask round pid req s k ≡ k n
unfolding ask ptrace_safe_call
ask-returned round pid req s k n e = rw e refl

pub find-insert_self {ℓ} :
    {V : Type ℓ} (k : ℕ) (v : V) (m : List (ℕ × V)) → find k (insert k v m) ≡ some v
find-insert_self k v m = ground (arith, find-insert k k v m)

-- The request that lets a thread go on after the exit of a system call.
abbrev pub left_with : Config → ℕ → Request
left_with cfg pid = if cfg.use_sec_comp then continue_syscall pid 0 else restart_syscall pid 0

-- Every request about the thread gets an answer.
pub record Answering (round : Round) (pid : ℕ) : Type 0 where
  pub message : (n : ℕ) × (round.reply (get_event_msg pid) ≡ returned (pos n))
  pub regs : (n : ℕ) × (round.reply (get_regs pid) ≡ returned (pos n))
  pub restart : (sig : ℕ) → (v : ℤ) × (round.reply (restart_syscall pid sig) ≡ returned v)
  pub continue : (sig : ℕ) → (v : ℤ) × (round.reply (continue_syscall pid sig) ≡ returned v)

module _ (cfg : Config) (round : Round) (pid : ℕ) (answering : Answering round pid) where
  resume_thread-in_call :
      (sig number : ℕ) (s : Tracer)
      → find pid s.syscall_state_map ≡ some number
      → (number == syscall_undefined) ≡ false
      → resume_thread cfg round pid true sig s
        ≡ goes_on (record s { resumed = restart_syscall pid sig ∷ s.resumed })
  unfolding resume_thread
  resume_thread-in_call sig number s state inside =
      rw (state_of, state, inside) (either cfg.use_sec_comp)
    where
      either :
          (b : Bool)
          → (if b && false
              then resume round (continue_syscall pid sig) s goes_on
              else resume round (restart_syscall pid sig) s goes_on)
            ≡ goes_on (record s { resumed = restart_syscall pid sig ∷ s.resumed })
      either true =
          resume-returned round (restart_syscall pid sig) s goes_on (answering.restart sig).0
            (answering.restart sig).1
      either false =
          resume-returned round (restart_syscall pid sig) s goes_on (answering.restart sig).0
            (answering.restart sig).1

  resume_thread-left :
      (s : Tracer)
      → find pid s.syscall_state_map ≡ some syscall_undefined
      → resume_thread cfg round pid true 0 s
        ≡ goes_on (record s { resumed = left_with cfg pid ∷ s.resumed })
  unfolding resume_thread
  resume_thread-left s state = rw (state_of, state) (either cfg.use_sec_comp)
    where
      either :
          (b : Bool)
          → (if b && true
              then resume round (continue_syscall pid 0) s goes_on
              else resume round (restart_syscall pid 0) s goes_on)
            ≡ goes_on (record s {
              resumed = (if b then continue_syscall pid 0 else restart_syscall pid 0) ∷ s.resumed;
            })
      either true =
          resume-returned round (continue_syscall pid 0) s goes_on (answering.continue 0).0
            (answering.continue 0).1
      either false =
          resume-returned round (restart_syscall pid 0) s goes_on (answering.restart 0).0
            (answering.restart 0).1

  -- A stop before a system call leaves the context as it is, and notes the number.
  after_event-entry :
      (sig number : ℕ) (s : Tracer)
      → find pid s.syscall_state_map ≡ some syscall_undefined
      → get_syscall_number (round.registers pid) ≡ number
      → (number == no_entry) ≡ false
      → (number == syscall_undefined) ≡ false
      → after_event cfg round pid true sig s
        ≡ goes_on (record s {
          syscall_state_map = insert pid number s.syscall_state_map;
          resumed = restart_syscall pid sig ∷ s.resumed;
        })
  unfolding after_event on_registers
  after_event-entry sig number s state entry known inside =
      ask-returned round pid (get_regs pid) s
        (λ v. on_registers cfg round pid (round.registers pid) sig s) answering.regs.0
        answering.regs.1
      ∙ rw (on_registers, state, entry, known)
          (resume_thread-in_call sig number
            (record s { syscall_state_map = insert pid number s.syscall_state_map })
            (find-insert_self pid number s.syscall_state_map) inside)

  -- A stop after it hands the registers to `SyscallExit`, and nothing is noted any more.
  pub after_event-exit :
      (number : ℕ) (s : Tracer) (c : Context)
      → find pid s.syscall_state_map ≡ some number
      → (number == syscall_undefined) ≡ false
      → syscall_exit round.host pid (round.registers pid) s.context ≡ done tt c
      → after_event cfg round pid true 0 s
        ≡ goes_on (record s {
          context = c;
          syscall_state_map = insert pid syscall_undefined s.syscall_state_map;
          resumed = left_with cfg pid ∷ s.resumed;
        })
  unfolding after_event on_registers calls
  after_event-exit number s c state inside run =
      ask-returned round pid (get_regs pid) s
        (λ v. on_registers cfg round pid (round.registers pid) 0 s) answering.regs.0
        answering.regs.1
      ∙ rw (on_registers, state, inside, run)
          (resume_thread-left
            (record s {
              context = c;
              syscall_state_map = insert pid syscall_undefined s.syscall_state_map;
            })
            (find-insert_self pid syscall_undefined s.syscall_state_map))

-- The stops at which a system call begins: a system-call stop, and from Linux 4.8 on the stop of the
-- filter, with the signal that the thread is let go on with.
pub data IsEntry (cfg : Config) (pid : ℕ) : Wait → ℕ → Type 0 where
  call : IsEntry cfg pid (changed pid (stopped syscall_trap 0)) 0
  filter :
      (sig : ℕ)
      → cfg.sec_comp_v2 ≡ true
      → (sig == syscall_trap) ≡ false
      → IsEntry cfg pid (changed pid (stopped sig event_seccomp)) sig

module _ (cfg : Config) (pid : ℕ) where
  -- What the two stops leave behind.
  pub record Called (number sig : ℕ) (c : Context) (s s' : Tracer) : Type 0 where
    pub context : s'.context ≡ c
    pub state : find pid s'.syscall_state_map ≡ some syscall_undefined
    pub others :
        (j : ℕ) → (pid == j) ≡ false → find j s'.syscall_state_map ≡ find j s.syscall_state_map
    pub resumed : s'.resumed ≡ left_with cfg pid ∷ restart_syscall pid sig ∷ s.resumed

  pub on_entry :
      (round : Round) (w : Wait) (sig number : ℕ) (s : Tracer)
      → round.wait ≡ w
      → Answering round pid
      → IsEntry cfg pid w sig
      → find pid s.syscall_state_map ≡ some syscall_undefined
      → get_syscall_number (round.registers pid) ≡ number
      → (number == no_entry) ≡ false
      → (number == syscall_undefined) ≡ false
      → (m : List (ℕ × ℕ)) × (step cfg round s
          ≡ goes_on
              (record s { syscall_state_map = m; resumed = restart_syscall pid sig ∷ s.resumed }))
        × (find pid m ≡ some number)
        × ((j : ℕ) → (pid == j) ≡ false → find j m ≡ find j s.syscall_state_map)
  unfolding step on_wait optrace.Tracer.Rounds.on_status on_stop on_event ask ptrace_safe_call
  on_entry round _ _ number s w answering call state entry known inside = (
    insert pid number s.syscall_state_map,
    ap (λ v. on_wait cfg round v s) w
        ∙ rw (on_stop, has_key, state)
            (after_event-entry cfg round pid answering 0 number s state entry known inside),
    find-insert_self pid number s.syscall_state_map,
    λ j e. ground (arith, find-insert pid j number s.syscall_state_map),
  )
  on_entry round _ _ number s w answering (filter sig v2 plain) state entry known inside =
      let t = record s { syscall_state_map = insert pid syscall_undefined s.syscall_state_map } in
      (
        insert pid number t.syscall_state_map,
        ap (λ v. on_wait cfg round v s) w
            ∙ rw (on_stop, has_key, state, plain, answering.message.1, v2)
                ((after_event-entry cfg round pid answering sig number t
                  (find-insert_self pid syscall_undefined s.syscall_state_map) entry known inside)),
        find-insert_self pid number t.syscall_state_map,
        λ j e. ground (
          arith,
          find-insert pid j number t.syscall_state_map,
          find-insert pid j syscall_undefined s.syscall_state_map,
        ),
      )

  -- A system call of a thread that is not in one, from the stop before it to the stop after it: the
  -- context changes only by `SyscallExit`, on the registers of the second stop; the thread is in no
  -- system call again, the states of the others are kept; and it has been let go on twice, the first
  -- time to the next system-call stop, whether there is a filter or not. This is if all requests are
  -- answered, the first registers are those of an entry, and `SyscallExit` returns.
  pub run_rounds-Called :
      (entry exit : Round) (sig number : ℕ) (s : Tracer) (c : Context)
      → IsEntry cfg pid entry.wait sig
      → exit.wait ≡ changed pid (stopped syscall_trap 0)
      → Answering entry pid
      → Answering exit pid
      → find pid s.syscall_state_map ≡ some syscall_undefined
      → get_syscall_number (entry.registers pid) ≡ number
      → (number == no_entry) ≡ false
      → (number == syscall_undefined) ≡ false
      → syscall_exit exit.host pid (exit.registers pid) s.context ≡ done tt c
      → (s' : Tracer) × (run_rounds cfg (entry ∷ exit ∷ []) s ≡ goes_on s')
        × Called number sig c s s'
  unfolding run_rounds step on_wait optrace.Tracer.Rounds.on_status on_stop
  run_rounds-Called entry exit sig number s c begins ends answering_1 answering_2 state first known
        inside run =
      let (m, stepped, here, others) =
        on_entry entry entry.wait sig number s refl answering_1 begins state first known inside in
      let t = record s { syscall_state_map = m; resumed = restart_syscall pid sig ∷ s.resumed } in
      (
        record t {
          context = c;
          syscall_state_map = insert pid syscall_undefined m;
          resumed = left_with cfg pid ∷ t.resumed;
        },
        ap (λ v. continue_run v (run_rounds cfg (exit ∷ []))) stepped
            ∙ ap (λ v. continue_run (on_wait cfg exit v t) goes_on) ends
            ∙ rw (on_stop, has_key, here)
                (ap (λ v. continue_run v goes_on)
                  (after_event-exit cfg exit pid answering_2 number t c here inside run)),
        record {
          context = refl;
          state = find-insert_self pid syscall_undefined m;
          others = λ j e. ground (arith, find-insert pid j syscall_undefined m, others j e);
          resumed = refl;
        },
      )
