-- ===== src/Tracer/Verdicts.antt =====
-- What a round may end with, and the rules for the pieces that rounds are made of.
use optrace.Prelude.{ℕ, ◌≡◌, refl, sym, subst, ◌∷◌, ◌==◌, if◌then◌else◌, Bool-cases, inl, inr}
use optrace.Prelude.Int.{ℤ, pos, negsuc, is_negative, pos_part}
use optrace.Host.{Host}
use optrace.Abi.{esrch}
use optrace.Context.{Context, Outcome, done, aborted, exited, undefined}
use optrace.Context.Live.{Ends}
use optrace.Context.Safety.{Unreadable}
use optrace.Tracer.{
  Request, restart_syscall, Reply, returned, failed, Round, Tracer, Verdict, goes_on, returns,
  aborts, exits, breaks, calls, ptrace_safe_call, resume, ask,
}

-- The loop goes on or returns with what `P` says, or the tracer ends with status 2; no `assert` fails,
-- and undefined behaviour is only possible where `B` is.
abbrev pub Goes : Type 0 → (Tracer → Type 0) → Verdict → Type 0
Goes B P (goes_on s) = P s
Goes B P (returns rc s) = P s
Goes B P aborts = ⊥
Goes B P (exits n) = n ≡ 2
Goes B P breaks = B

-- A call of a method returns, or ends the tracer with status 2.
abbrev pub Settles : Type 0 → (Context → Type 0) → Outcome (Unit {0}) → Type 0
Settles B Q (done x c) = Q c
Settles B Q aborted = ⊥
Settles B Q (exited n) = n ≡ 2
Settles B Q undefined = B

pub Settles-done :
    (B : Type 0) (Q : Context → Type 0) (o : Outcome (Unit {0})) (c : Context)
    → o ≡ done tt c
    → Q c
    → Settles B Q o
Settles-done B Q o c e q = subst (Settles B Q) (sym e) q

pub Settles-Ends :
    (B : Type 0) (h : Host) (Q : Context → Type 0) (o : Outcome (Unit {0}))
    → Ends (Unreadable h) (λ x c. Q c) o
    → Settles B Q o
Settles-Ends B h Q (done x c) q = q
Settles-Ends B h Q aborted q = q
Settles-Ends B h Q (exited n) q = q.0
Settles-Ends B h Q undefined q = absurd q

-- What is known of the result of a call, with the equation that it is the result.
pub Settles-with :
    (B : Type 0) (Q : Context → Type 0) (o : Outcome (Unit {0}))
    → Settles B Q o
    → Settles B (λ c. (o ≡ done tt c) × Q c) o
Settles-with B Q (done x c) q = (refl, q)
Settles-with B Q aborted q = q
Settles-with B Q (exited n) q = q
Settles-with B Q undefined q = q

module _ (B : Type 0) (P : Tracer → Type 0) where
  pub calls-Goes :
      (Q : Context → Type 0) (s : Tracer) (o : Outcome (Unit {0})) (k : Tracer → Verdict)
      → Settles B Q o
      → ((c : Context) → Q c → Goes B P (k (record s { context = c })))
      → Goes B P (calls s o k)
  unfolding calls
  calls-Goes Q s (done x c) k h next = next c h
  calls-Goes Q s aborted k h next = absurd h
  calls-Goes Q s (exited n) k h next = h
  calls-Goes Q s undefined k h next = h

  pub ptrace_safe_call-Goes :
      (r : Reply) (k : ℤ → Verdict) → ((v : ℤ) → Goes B P (k v)) → Goes B P (ptrace_safe_call r k)
  unfolding ptrace_safe_call
  ptrace_safe_call-Goes (returned v) k next = next v
  ptrace_safe_call-Goes (failed errno) k next = elim (Bool-cases (errno == esrch)) [
    | inl gone ↦ rw gone (next (negsuc 0))
    | inr more ↦ rw more refl
  ]

  pub resume-Goes :
      (round : Round) (req : Request) (s : Tracer) (k : Tracer → Verdict)
      → Goes B P (k (record s { resumed = req ∷ s.resumed }))
      → Goes B P (resume round req s k)
  unfolding resume
  resume-Goes round req s k h = ptrace_safe_call-Goes (round.reply req) _ (λ v. h)

  -- `P` must not look at the requests.
  pub ask-Goes :
      (round : Round) (pid : ℕ) (req : Request) (s : Tracer) (k : ℕ → Verdict)
      → P (record s { resumed = restart_syscall pid 0 ∷ s.resumed })
      → ((n : ℕ) → round.reply req ≡ returned (pos n) → Goes B P (k n))
      → Goes B P (ask round pid req s k)
  unfolding ask ptrace_safe_call
  ask-Goes round pid req s k gone next = on_reply (round.reply req) refl
    where
      on_value :
          (v : ℤ)
          → round.reply req ≡ returned v
          → Goes B P (
              if is_negative v
              then resume round (restart_syscall pid 0) s goes_on
              else k (pos_part v))
      on_value (pos n) e = next n e
      on_value (negsuc n) e = resume-Goes round (restart_syscall pid 0) s goes_on gone

      on_reply :
          (r : Reply)
          → round.reply req ≡ r
          → Goes B P (
              ptrace_safe_call r λ v.
                if is_negative v
                then resume round (restart_syscall pid 0) s goes_on
                else k (pos_part v))
      on_reply (returned v) e = on_value v e
      on_reply (failed errno) e = elim (Bool-cases (errno == esrch)) [
        | inl lost ↦ rw lost (resume-Goes round (restart_syscall pid 0) s goes_on gone)
        | inr more ↦ rw more refl
      ]
