-- ===== src/Context/Steps.antt =====
-- One step of a command, where its outcome is known.
use optrace.Prelude.{ℕ, ◌≡◌, refl, ap, some, true, get_elem?}
use optrace.Prelude.Maps.{find, has_key}
use optrace.Types.{ProcState}
use optrace.Context.{Context, Cmd, Outcome, done, and_then, assert}
use optrace.Context.Objects.{get_proc_state}
use optrace.Context.Descriptors.{get_proc_info}

pub and_then-done {ℓ κ} :
    {A : Type ℓ} {B : Type κ} (o : Outcome A) (k : A → Cmd B) {a : A} {c : Context}
    → o ≡ done a c
    → and_then o k ≡ k a c
and_then-done o k e = ap (λ r. and_then r k) e

pub get_proc_state-some :
    (pid a : ℕ) (c : Context) → find pid c.proc_map ≡ some a → get_proc_state pid c ≡ done a c
unfolding get_proc_state
get_proc_state-some pid a c e = rw (e, get_proc_state) refl

pub get_proc_info-some :
    (a : ℕ) (p : ProcState) (c : Context)
    → get_elem? c.procs a ≡ some p
    → get_proc_info a c ≡ done p.proc_info c
unfolding get_proc_info
get_proc_info-some a p c e = rw (e, get_proc_info) refl

pub assert-has_key :
    (pid a : ℕ) (c : Context)
    → find pid c.proc_map ≡ some a
    → assert (has_key pid c.proc_map) c ≡ done tt c
assert-has_key pid a c e =
    let known : has_key pid c.proc_map ≡ true = rw (e, has_key) refl in ap (λ b. assert b c) known
