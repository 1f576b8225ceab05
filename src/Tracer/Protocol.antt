-- ===== src/Tracer/Protocol.antt =====
-- `RunTracer` on a kernel that keeps to the ptrace protocol: its calls on the context are a run of
-- Context/Runs.
use optrace.Prelude.{ℕ, ◌≡◌, Bool, true, false, ◌||◌, none, some, List, ◌==◌, if◌then◌else◌, arith}
use optrace.Prelude.Int.{pos}
use optrace.Prelude.Maps.{find, insert, erase, has_key, find-insert, find-erase}
use optrace.Host.{Host}
use optrace.Options.{Options}
use optrace.Abi.{syscall_trap, event_fork, event_vfork, event_clone, event_exec}
use optrace.Context.Exits.{HasIntFd}
use optrace.Context.{Context}
use optrace.Context.WellFormed.{HasLeader}
use optrace.Context.Runs.{Reachable}
use optrace.Tracer.{
  stopped, signaled, exited_with, other, Wait, changed, interrupted, no_child, wait_failed,
  get_event_msg, returned, Round,
}

pub has_key-insert {ℓ} :
    {V : Type ℓ} (k j : ℕ) (v : V) (m : List (ℕ × V))
    → has_key j (insert k v m) ≡ (if k == j then true else has_key j m)
has_key-insert k j v m = ground (arith, find-insert k j v m)

pub has_key-erase {ℓ} :
    {V : Type ℓ} (k j : ℕ) (m : List (ℕ × V))
    → has_key j (erase k m) ≡ (if k == j then false else has_key j m)
has_key-erase k j m = ground (arith, find-erase k j m)

-- The invariant of the loop: the context is one of a run, and the threads with a syscall state are in
-- its table.
pub record IsTracked (start : Host) (opts : Options) (c : Context) (m : List (ℕ × ℕ)) : Type 0 where
  pub reachable : Reachable start opts c
  pub known : (pid : ℕ) → has_key pid m ≡ true → has_key pid c.proc_map ≡ true

abbrev pub is_child_event : ℕ → Bool
is_child_event event = (event == event_clone) || ((event == event_fork) || (event == event_vfork))

-- What the kernel keeps to at a stop of a thread that the tracer knows: the leader of its group is
-- there; a new descriptor is an `int`; an event is not a system-call stop; a new child has an id that the table does not have; and
-- after an exec by another thread than the leader, that thread was known.
pub record StopPromise (round : Round) (pid sig event : ℕ) (c : Context) (m : List (ℕ × ℕ))
    : Type 0 where
  pub led : (a : ℕ) → find pid c.proc_map ≡ some a → HasLeader a c
  pub int_fd : HasIntFd (round.registers pid)
  pub trap : (event == 0) ≡ false → (sig == syscall_trap) ≡ false
  pub fresh :
      (child : ℕ)
      → is_child_event event ≡ true
      → round.reply (get_event_msg pid) ≡ returned (pos child)
      → find child c.proc_map ≡ none
  pub former :
      (thread : ℕ)
      → (event == event_exec) ≡ true
      → round.reply (get_event_msg pid) ≡ returned (pos thread)
      → (thread == pid) ≡ false
      → has_key thread m ≡ true

-- What it keeps to in a round: only a thread that is known ends.
abbrev pub Promise : Round → Context → List (ℕ × ℕ) → Wait → Type 0
Promise round c m (changed pid (stopped sig event)) =
    has_key pid m ≡ true → StopPromise round pid sig event c m
Promise round c m (changed pid (signaled sig core)) = has_key pid m ≡ true
Promise round c m (changed pid (exited_with code)) = has_key pid m ≡ true
Promise round c m (changed pid other) = Unit
Promise round c m interrupted = Unit
Promise round c m no_child = Unit
Promise round c m wait_failed = Unit

-- A child has died with a core dump.
abbrev pub IsDump : Wait → Type 0
IsDump (changed pid (signaled sig true)) = Unit
IsDump w = ⊥
