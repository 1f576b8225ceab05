-- ===== src/Tracer/Orders.antt =====
-- A new child in `RunTracer`: its first stop and the event of its parent come in either order.
use optrace.Prelude.{ℕ, ◌≡◌, refl, ap, sym, ◌∙◌, Bool, true, false, [], ◌∷◌, ◌==◌, arith}
use optrace.Prelude.Int.{pos}
use optrace.Prelude.Maps.{insert, erase, has_key}
use optrace.Abi.{syscall_trap}
use optrace.Context.{Context, done}
use optrace.Tracer.{
  stopped, changed, get_event_msg, returned, Round, Config, Tracer, goes_on, syscall_undefined,
}
use optrace.Tracer.Rounds.{after_event, continue_run, run_rounds}
use optrace.Tracer.Protocol.{has_key-insert}
use optrace.Tracer.Stops.{Answering}
use optrace.Tracer.Births.{
  insert_twice, erase-insert, after_event-plain, register_child-known, register_child-suspended,
  step-birth, step-first_stop, step-known_stop, IsBirth, go_on_with, registered,
}

-- The event of a parent with a new child, and the first stop of the child, which is with the signal
-- `first_sig`.
pub record IsNewChild (event stop : Round) (pid child sig first_sig : ℕ) (is_thread : Bool)
    (s : Tracer) (c : Context) : Type 0 where
  pub number : ℕ
  pub reported : event.wait ≡ changed pid (stopped sig number)
  pub birth : IsBirth event pid number is_thread
  pub message : event.reply (get_event_msg pid) ≡ returned (pos child)
  pub registers : registered event pid is_thread child s.context ≡ done tt c
  pub stops : stop.wait ≡ changed child (stopped first_sig 0)
  pub plain : (sig == syscall_trap) ≡ false
  pub first_plain : (first_sig == syscall_trap) ≡ false
  pub parent : has_key pid s.syscall_state_map ≡ true
  pub unknown : has_key child s.syscall_state_map ≡ false
  pub new : has_key child s.suspended_threads ≡ false
  pub parent_answers : Answering event pid
  pub child_released : Answering event child
  pub child_answers : Answering stop child

-- The event of a parent and the first stop of its child, a process or a thread, come in either order:
-- the context, the states of the system calls and the suspended threads are the same afterwards; but
-- the child goes on with its first signal only if the event was first, and without a signal otherwise.
pub run_rounds-either_order :
    (cfg : Config) (event stop : Round) (pid child sig first_sig : ℕ) (is_thread : Bool)
    (s : Tracer) (c : Context)
    → IsNewChild event stop pid child sig first_sig is_thread s c
    → (e : Tracer) × (l : Tracer) × (run_rounds cfg (event ∷ stop ∷ []) s ≡ goes_on e)
      × (run_rounds cfg (stop ∷ event ∷ []) s ≡ goes_on l)
      × (e.context ≡ c)
      × (l.context ≡ c)
      × (e.syscall_state_map ≡ l.syscall_state_map)
      × (e.suspended_threads ≡ l.suspended_threads)
      × (e.resumed ≡ go_on_with cfg child first_sig ∷ go_on_with cfg pid sig ∷ s.resumed)
      × (l.resumed ≡ go_on_with cfg pid sig ∷ go_on_with cfg child 0 ∷ s.resumed)
unfolding run_rounds
run_rounds-either_order cfg event stop pid child sig first_sig is_thread s c n =
    let m = insert child syscall_undefined s.syscall_state_map in
    let born : Tracer = record s {
      context = c;
      syscall_state_map = m;
      resumed = go_on_with cfg pid sig ∷ s.resumed;
    } in
    let waiting : Tracer = record s {
      suspended_threads = insert child (stopped first_sig 0) s.suspended_threads;
    } in
    let freed : Tracer = record {
      context = c;
      suspended_threads = erase child waiting.suspended_threads;
      syscall_state_map = insert child syscall_undefined m;
      tracee_exit_code = s.tracee_exit_code;
      resumed = go_on_with cfg child 0 ∷ s.resumed;
    } in
    (
      record born { resumed = go_on_with cfg child first_sig ∷ born.resumed },
      record freed { resumed = go_on_with cfg pid sig ∷ freed.resumed },
      ap (λ v. continue_run v (run_rounds cfg (stop ∷ [])))
            (step-birth cfg event pid child n.number sig is_thread s n.reported n.plain n.parent
                n.message n.birth
              ∙ register_child-known cfg event pid child is_thread s c
                  (after_event cfg event pid false sig) n.registers n.new
              ∙ after_event-plain cfg event pid sig
                  (record s { context = c; syscall_state_map = m }) n.parent_answers)
          ∙ ap (λ v. continue_run v goes_on)
              (step-known_stop cfg stop child first_sig born n.stops n.first_plain
                (ground (arith, has_key-insert child child syscall_undefined s.syscall_state_map))
                n.child_answers),
      ap (λ v. continue_run v (run_rounds cfg (event ∷ [])))
            (step-first_stop cfg stop child first_sig s n.stops n.unknown)
          ∙ ap (λ v. continue_run v goes_on)
              (step-birth cfg event pid child n.number sig is_thread waiting n.reported n.plain
                  n.parent n.message n.birth
                ∙ register_child-suspended cfg event pid child is_thread waiting c
                    (after_event cfg event pid false sig) n.child_released n.registers
                    (ground
                      (arith, has_key-insert child child (stopped first_sig 0) s.suspended_threads))
                ∙ after_event-plain cfg event pid sig freed n.parent_answers),
      refl,
      refl,
      sym (insert_twice child syscall_undefined s.syscall_state_map),
      sym (erase-insert child (stopped first_sig 0) s.suspended_threads n.new),
      refl,
      refl,
    )
