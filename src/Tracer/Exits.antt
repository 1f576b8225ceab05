-- ===== src/Tracer/Exits.antt =====
-- The exit code of the tracee in a round of `RunTracer`.
use optrace.Prelude.{
  ℕ, ◌+◌, ◌≡◌, refl, ap, sym, ◌∙◌, ◌⊎◌, inl, inr, Bool, true, false, ◌&&◌, Option, none, some, ◌==◌,
  if◌then◌else◌,
}
use optrace.Prelude.Int.{ℤ, pos, negsuc}
use optrace.Abi.{sigkill}
use optrace.Tracer.{
  stopped, signaled, exited_with, other, Wait, changed, interrupted, no_child, wait_failed, Round,
  Config, Tracer, Verdict, goes_on, returns, aborts, exits, breaks,
}
use optrace.Tracer.Rounds.{on_stop, on_exit, on_status, note_exit, on_wait}
use optrace.Tracer.Leads.{Leads, calls-Leads, vanish_thread-Leads, on_stop-Leads}

-- The exit code of the tracee, if it ends; and whether no child is left.
abbrev pub tracee_exit : ℕ → Wait → Option ℕ
tracee_exit tracee (changed pid (stopped sig event)) = none
tracee_exit tracee (changed pid (signaled sig core)) =
    if pid == tracee then some (128 + sig) else none
tracee_exit tracee (changed pid (exited_with code)) = if pid == tracee then some code else none
tracee_exit tracee (changed pid other) = none
tracee_exit tracee interrupted = none
tracee_exit tracee no_child = none
tracee_exit tracee wait_failed = none

abbrev pub none_left : Wait → Bool
none_left no_child = true
none_left (changed pid status) = false
none_left interrupted = false
none_left wait_failed = false

abbrev pub or_else : Option ℕ → Option ℕ → Option ℕ
or_else none o = o
or_else (some n) o = some n

pub or_none : (o : Option ℕ) → or_else o none ≡ o
or_none none = refl
or_none (some n) = refl

pub or_else_assoc : (a b c : Option ℕ) → or_else (or_else a b) c ≡ or_else a (or_else b c)
or_else_assoc none b c = refl
or_else_assoc (some n) b c = refl

-- 137, 128 and `SIGKILL`, unless the code is known.
abbrev pub exit_value : Option ℕ → ℤ
exit_value none = pos 137
exit_value (some n) = pos n

abbrev pub waits : Config → Bool
waits cfg = cfg.follow_forks && cfg.wait_daemons

-- What a round makes of the exit code, and what it may return.
abbrev pub Noted : Config → Wait → Option ℕ → Tracer → Type 0
Noted cfg w code s =
    (none_left w ≡ false)
    × (s.tracee_exit_code ≡ or_else code (tracee_exit cfg.tracee_pid w))
    × ((waits cfg ≡ true) ⊎ (tracee_exit cfg.tracee_pid w ≡ none))

abbrev pub Given : Config → Wait → Option ℕ → ℤ → Type 0
Given cfg w code rc =
    (rc ≡ negsuc 1)
    ⊎ (((none_left w ≡ true) × (rc ≡ exit_value code))
        ⊎ ((none_left w ≡ false)
            × (waits cfg ≡ false)
            × ((n : ℕ) × (tracee_exit cfg.tracee_pid w ≡ some n) × (rc ≡ pos n))))

pub weaken :
    (P P' : Tracer → Type 0) (R R' : ℤ → Type 0) (v : Verdict)
    → ((s : Tracer) → P s → P' s)
    → ((rc : ℤ) → R rc → R' rc)
    → Leads P R v
    → Leads P' R' v
weaken P P' R R' (goes_on s) f g h = f s h
weaken P P' R R' (returns rc s) f g h = g rc h
weaken P P' R R' aborts f g h = tt
weaken P P' R R' (exits n) f g h = tt
weaken P P' R R' breaks f g h = tt

module _ (cfg : Config) (round : Round) (code : Option ℕ) where
  pub on_exit-Leads :
      (pid n : ℕ) (w : Wait) (s : Tracer)
      → none_left w ≡ false
      → tracee_exit cfg.tracee_pid w ≡ (if pid == cfg.tracee_pid then some n else none)
      → s.tracee_exit_code ≡ code
      → Leads (Noted cfg w code) (Given cfg w code) (on_exit cfg round pid n s)
  unfolding on_exit
  on_exit-Leads pid n w s left exit h =
      vanish_thread-Leads cfg round pid code (Noted cfg w code) (Given cfg w code) pid true s last h
        (λ t q. ended (pid == cfg.tracee_pid) (waits cfg) refl t q exit)
    where
      last : Tracer → Verdict
      last t =
          if pid == cfg.tracee_pid
          then (if waits cfg then goes_on (note_exit cfg round pid n t) else returns (pos n) t)
          else goes_on t

      noted :
          (t : Tracer) (o : Option ℕ)
          → t.tracee_exit_code ≡ o
          → (note_exit cfg round pid n t).tracee_exit_code ≡ or_else o (some n)
      noted t none e = rw e refl
      noted t (some m) e = rw e refl

      ended :
          (is_tracee waits_too : Bool)
          → waits cfg ≡ waits_too
          → (t : Tracer) → t.tracee_exit_code ≡ code
          → tracee_exit cfg.tracee_pid w ≡ (if is_tracee then some n else none)
          → Leads (Noted cfg w code) (Given cfg w code) (
              if is_tracee
              then (if waits_too then goes_on (note_exit cfg round pid n t) else returns (pos n) t)
              else goes_on t)
      ended true true k t q e = (left, noted t code q ∙ ap (or_else code) (sym e), inl k)
      ended true false k t q e = inr (inr (left, k, (n, e, refl)))
      ended false b k t q e = (left, q ∙ sym (or_none code) ∙ ap (or_else code) (sym e), inr e)

  pub on_stop-Given :
      (pid sig event : ℕ) (w : Wait) (s : Tracer)
      → none_left w ≡ false
      → tracee_exit cfg.tracee_pid w ≡ none
      → s.tracee_exit_code ≡ code
      → Leads (Noted cfg w code) (Given cfg w code) (on_stop cfg round pid sig event s)
  on_stop-Given pid sig event w s left no_exit h =
      weaken (λ t. t.tracee_exit_code ≡ code) (Noted cfg w code) (λ rc. rc ≡ negsuc 1)
        (Given cfg w code) (on_stop cfg round pid sig event s)
        (λ t q. (left, q ∙ sym (or_none code) ∙ ap (or_else code) (sym no_exit), inr no_exit))
        (λ rc e. inl e) (on_stop-Leads cfg round pid code sig event s h)

  pub on_wait-Leads :
      (w : Wait) (s : Tracer)
      → s.tracee_exit_code ≡ code
      → Leads (Noted cfg w code) (Given cfg w code) (on_wait cfg round w s)
  unfolding on_wait on_status
  on_wait-Leads (changed pid (stopped sig event)) s h =
      on_stop-Given pid sig event (changed pid (stopped sig event)) s refl refl h
  on_wait-Leads (changed pid (signaled sig core)) s h =
      let w = changed pid (signaled sig core) in
      calls-Leads (Noted cfg w code) (Given cfg w code) s _ (on_exit cfg round pid (128 + sig))
        (λ c. on_exit-Leads pid (128 + sig) w (record s { context = c }) refl refl h)
  on_wait-Leads (changed pid (exited_with n)) s h =
      on_exit-Leads pid n (changed pid (exited_with n)) s refl refl h
  on_wait-Leads (changed pid other) s h = tt
  on_wait-Leads interrupted s h = (refl, h ∙ sym (or_none code), inr refl)
  on_wait-Leads no_child s h = inr (inl (refl, value s.tracee_exit_code ∙ ap exit_value h))
    where
      value :
          (o : Option ℕ)
          → (elim o as (λ _. ℤ) [ none ↦ pos (128 + sigkill) | some c ↦ pos c ]) ≡ exit_value o
      value none = refl
      value (some c) = refl
  on_wait-Leads wait_failed s h = tt
