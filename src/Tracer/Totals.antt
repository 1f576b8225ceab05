-- ===== src/Tracer/Totals.antt =====
-- Whole runs of `TraceProgram` on a program that opens, writes and closes files.
use optrace.Prelude.{ℕ, ◌≡◌, Bool, true, none, some, List, ◌==◌, if◌then◌else◌, ◌⊎◌, Text}
use optrace.Prelude.Int.{pos}
use optrace.Host.{Host}
use optrace.Options.{Options}
use optrace.Context.{Context, done, undefined}
use optrace.Context.PostProcess.{CanReport}
use optrace.Report.{Printer, final_report}
use optrace.Context.Series.{Session}
use optrace.Tracer.{Request, Reply, Round, Config, Tracer, syscall_undefined}
use optrace.Tracer.Program.{config_of, trace_tracee}
use optrace.Tracer.Interleaved.{Stopping, States}

module _ (p : Printer) (start : Host) (kernel_3_5 kernel_4_8 : Bool) (pid : ℕ)
    (reply : Request → Reply) (opts : Options) (ss : List Stopping) (exit : Round) (code : ℕ)
    (sessions : List Session) (c : Context) where
  abbrev pub cfg : Config
  cfg = config_of opts kernel_3_5 kernel_4_8 pid

  -- The tracee is in no system call, and no other thread is known.
  abbrev pub alone : States
  alone j = if pid == j then some syscall_undefined else none

  -- The end of the run, with `c'` the context after the loop of `PostProcess`: see the theorem.
  abbrev pub Finished : (rounds : List Round) → Context → Type 0
  Finished rounds c' =
      ((t : Text) × (final_report p c' ≡ some t)
        × (trace_tracee p start kernel_3_5 kernel_4_8 pid reply rounds opts
            ≡ some (done (pos code) c')))
      ⊎ ((opts.human_readable_sizes ≡ true)
          × (CanReport p c' → ⊥)
          × (trace_tracee p start kernel_3_5 kernel_4_8 pid reply rounds opts ≡ some undefined))
