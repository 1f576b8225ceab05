-- ===== src/Context/PostProcess.antt =====
-- `VanishProcess` as a whole, and the loop of `PostProcess`.
use optrace.Prelude.{
  ℕ, zero, suc, ◌+◌, ◌≤◌, ◌<◌, ◌≡◌, refl, sym, ap, subst, ◌∙◌, inl, inr, true, false, Option, none,
  some, List, [], ◌∷◌, length, get_elem?, if◌then◌else◌, arith, Bool-cases, ==-refl, word, ltb, leb,
  Text, ◌⊎◌, Bool,
}
use native.Mathlib.Nat.{zero-add}
use optrace.Prelude.Int.{ℤ, is_zero}
use optrace.Prelude.Maps.{find, erase, has_key, member, remove}
use optrace.FileState.{FileState}
use optrace.Types.{ProcState, OutputFile}
use optrace.Context.{Context, Outcome, done, undefined, and_then}
use optrace.Context.Objects.{fds_of, slot, is_mapped, use_count, count_refs, get_proc_state}
use optrace.Context.Descriptors.{get_proc_info}
use optrace.Context.Steps.{and_then-done, get_proc_state-some, get_proc_info-some, assert-has_key}
use optrace.Context.Balance.{balance, owed, owed_from}
use optrace.Context.Vanish.{Closed, HasFiles-Closed, tear_down_loop-Closed}
use optrace.Context.WellFormed.{
  IsEmpty, IsWellFormed, erased, is_mapped_of_find, remove_absent, length-erase,
  erased-IsWellFormed, erased-balance,
}
use mathlib.Core.List.{Mem}
use optrace.Storage.Queue.{list_queue}
use optrace.Report.{Printer, final_report}
use optrace.Report.Total.{Printed, CanPrint, print_report-Printed}
use optrace.Context.Lifecycle.{
  print_final, tear_down_loop, tear_down_leader, vanish_process, vanish_first, vanish_all,
  post_process,
}

pub lookup_proc :
    (procs : List ProcState) (a : ℕ)
    → a < length procs
    → (p : ProcState) × (get_elem? procs a ≡ some p)
lookup_proc [] a h = elim h [ ]
lookup_proc (p ∷ ps) zero h = (p, refl)
lookup_proc (p ∷ ps) (suc a) h = lookup_proc ps a (omega arith)

slot_beyond : (fds : List (Option ℕ)) (j : ℕ) → length fds ≤ j → slot fds j ≡ none
slot_beyond [] j h = refl
slot_beyond (p ∷ fds) zero h = absurd (omega arith)
slot_beyond (p ∷ fds) (suc j) h = slot_beyond fds j (omega arith)

IsEmpty-Closed : (b a lo hi : ℕ) (c c' : Context) → Closed a lo hi c c' → IsEmpty b c → IsEmpty b c'
IsEmpty-Closed b a lo hi c c' k h j = ground (arith, k.slots b j, h j)

-- A process whose slots have all been closed is empty.
Closed-IsEmpty :
    (a : ℕ) (c c' : Context) → Closed a 0 (length (fds_of a c.procs)) c c' → IsEmpty a c'
Closed-IsEmpty a c c' k j =
    k.slots a j
    ∙ rw (==-refl a) (emptied (slot (fds_of a c.procs) j) (slot_beyond (fds_of a c.procs) j))
  where
    emptied :
        (p : Option ℕ)
        → (length (fds_of a c.procs) ≤ j → p ≡ none)
        → (if leb 0 j then (if ltb j (length (fds_of a c.procs)) then none else p) else p) ≡ none
    emptied p h = ground arith

pub Closed-IsWellFormed :
    (a lo hi : ℕ) (c c' : Context) → Closed a lo hi c c' → IsWellFormed c → IsWellFormed c'
Closed-IsWellFormed a lo hi c c' k wf = record {
  files = HasFiles-Closed a lo hi c c' k wf.files;
  procs = λ b m. subst (λ n. b < n) (sym k.count) (wf.procs b (back b m));
  led = λ b m. elim (wf.led b (back b m)) [
    | inr e ↦ inr (IsEmpty-Closed b a lo hi c c' k e)
    | inl (l, leads, e) ↦
        inl (l, ap (member l) k.maps.group_leaders ∙ leads, ap (find l) k.maps.proc_map ∙ e)
  ];
  leaders = λ l m.
      ap (has_key l) k.maps.proc_map ∙ wf.leaders l (sym (ap (member l) k.maps.group_leaders) ∙ m);
}
  where
    back : (b : ℕ) → is_mapped b c'.proc_map ≡ true → is_mapped b c.proc_map ≡ true
    back b m = sym (ap (is_mapped b) k.maps.proc_map) ∙ m

-- What `VanishProcess` does to a well-formed context.
pub record Vanished (pid : ℕ) (c c' : Context) : Type 0 where
  pub proc_map : c'.proc_map ≡ erase pid c.proc_map
  pub capacity : c'.file_storage.capacity ≡ c.file_storage.capacity
  pub options : c'.options ≡ c.options
  pub count : length c'.procs ≡ length c.procs
  pub well_formed : IsWellFormed c'
  pub balanced : balance c' ≡ balance c

vanish_follower :
    (pid a : ℕ) (c : Context)
    → member pid c.group_leaders ≡ false
    → find pid c.proc_map ≡ some a
    → vanish_process pid c ≡ done tt (record c { proc_map = erase pid c.proc_map })
unfolding vanish_process
vanish_follower pid a c n at = rw n (and_then-done _ _ (assert-has_key pid a c at))

tear_down_leader_lem :
    (pid a : ℕ) (p : ProcState) (c d : Context)
    → find pid c.proc_map ≡ some a
    → get_elem? c.procs a ≡ some p
    → tear_down_loop a p.proc_info 0 (length (fds_of a c.procs)) c ≡ done tt d
    → tear_down_leader pid c ≡ done tt (record d { group_leaders = remove pid d.group_leaders })
unfolding tear_down_leader
tear_down_leader_lem pid a p c d at e run =
    and_then-done (get_proc_state pid c) _ (get_proc_state-some pid a c at)
    ∙ and_then-done (get_proc_info a c) _ (get_proc_info-some a p c e)
    ∙ and_then-done (tear_down_loop a p.proc_info 0 (length (fds_of a c.procs)) c) _ run

vanish_leader :
    (pid a : ℕ) (c d : Context)
    → member pid c.group_leaders ≡ true
    → tear_down_leader pid c ≡ done tt d
    → find pid d.proc_map ≡ some a
    → vanish_process pid c ≡ done tt (record d { proc_map = erase pid d.proc_map })
unfolding vanish_process
vanish_leader pid a c d n run at =
    rw n
      (and_then-done (tear_down_leader pid c) _ run ∙ and_then-done _ _ (assert-has_key pid a d at))

module _ (pid a : ℕ) (c : Context) (wf : IsWellFormed c)
    (z : is_zero c.file_storage.capacity ≡ false) (at : find pid c.proc_map ≡ some a) where
  vanish_follower-Vanished :
      member pid c.group_leaders ≡ false
      → (c' : Context) × (vanish_process pid c ≡ done tt c') × Vanished pid c c'
  vanish_follower-Vanished n =
      let same : remove pid c.group_leaders ≡ c.group_leaders =
        remove_absent pid c.group_leaders n in
      let run : vanish_process pid c ≡ done tt (erased pid c) =
        vanish_follower pid a c n at
        ∙ ap (λ s. done tt (record c { group_leaders = s; proc_map = erase pid c.proc_map }))
            (sym same) in
      (
        erased pid c,
        run,
        record {
          proc_map = refl;
          capacity = refl;
          options = refl;
          count = refl;
          well_formed = erased-IsWellFormed pid a c wf at (inl n);
          balanced = erased-balance pid a c wf at (inl n);
        },
      )

  vanish_leader-Vanished :
      member pid c.group_leaders ≡ true
      → (c' : Context) × (vanish_process pid c ≡ done tt c') × Vanished pid c c'
  vanish_leader-Vanished n =
      let alive = is_mapped_of_find pid a c.proc_map at in
      let (p, e) = lookup_proc c.procs a (wf.procs a alive) in
      let (d, run, k) =
        tear_down_loop-Closed (length (fds_of a c.procs)) a 0 p.proc_info c z alive wf.files in
      let closed : Closed a 0 (length (fds_of a c.procs)) c d =
        subst (λ hi. Closed a 0 hi c d) (zero-add (length (fds_of a c.procs))) k in
      let at' : find pid d.proc_map ≡ some a = ap (find pid) k.maps.proc_map ∙ at in
      let empty = Closed-IsEmpty a c d closed in
      let wf' = Closed-IsWellFormed a 0 (length (fds_of a c.procs)) c d closed wf in
      (
        erased pid d,
        vanish_leader pid a c _ n (tear_down_leader_lem pid a p c d at e run) at',
        record {
          proc_map = ap (erase pid) k.maps.proc_map;
          capacity = k.maps.capacity;
          options = k.maps.options;
          count = k.count;
          well_formed = erased-IsWellFormed pid a d wf' at' (inr empty);
          balanced = erased-balance pid a d wf' at' (inr empty) ∙ k.balanced;
        },
      )

  -- In a well-formed context whose report limit is not 0, `VanishProcess` of a known thread or process
  -- does not fail, takes its entry out of the table, keeps the context well-formed, and loses no byte:
  -- modulo `2 ^ 64`, the total so far and the sizes of the files still open sum up to what they did.
  pub vanish_process-Vanished :
      (c' : Context) × (vanish_process pid c ≡ done tt c') × Vanished pid c c'
  vanish_process-Vanished = elim (Bool-cases (member pid c.group_leaders)) [
    | inl n ↦ vanish_leader-Vanished n
    | inr n ↦ vanish_follower-Vanished n
  ]

count_refs_nil : (q s : ℕ) (procs : List ProcState) → count_refs [] q s procs ≡ 0
unfolding count_refs
count_refs_nil q s [] = refl
count_refs_nil q s (p ∷ ps) = omega (arith, count_refs_nil q (suc s) ps)

pub owed_from_nil :
    (uses : ℕ → ℕ) (s : ℕ) (files : List FileState)
    → ((q : ℕ) → uses q ≡ 0)
    → owed_from uses s files ≡ 0
owed_from_nil uses s [] h = refl
owed_from_nil uses s (f ∷ fs) h = ground (arith, h s, owed_from_nil uses (suc s) fs h)

-- With no process left, nothing is owed.
balance_nil : (c : Context) → c.proc_map ≡ [] → balance c ≡ word c.file_storage.output_size
unfolding owed use_count
balance_nil c e =
    let none_owed : owed_from (use_count c) 0 c.files ≡ 0 =
      owed_from_nil (use_count c) 0 c.files
        (λ q. ap (λ m. count_refs m q 0 c.procs) e ∙ count_refs_nil q 0 c.procs) in
    omega (arith, none_owed)

-- How the loop ends.
record Emptied (c c' : Context) : Type 0 where
  proc_map : c'.proc_map ≡ []
  options : c'.options ≡ c.options
  balanced : balance c' ≡ balance c

vanish_all-Emptied :
    (fuel : ℕ) (c : Context) (m : List (ℕ × ℕ))
    → c.proc_map ≡ m
    → IsWellFormed c
    → is_zero c.file_storage.capacity ≡ false
    → length m ≤ fuel
    → (c' : Context) × (vanish_all fuel c ≡ done tt c') × Emptied c c'
unfolding vanish_all
vanish_all-Emptied zero c [] e wf z h =
    (c, refl, record { proc_map = e; options = refl; balanced = refl })
vanish_all-Emptied zero c ((pid, a) ∷ m) e wf z h = absurd (omega arith)
vanish_all-Emptied (suc fuel) c [] e wf z h = (
  c,
  ap (λ m. vanish_first (vanish_all fuel) m c) e,
  record { proc_map = e; options = refl; balanced = refl },
)
vanish_all-Emptied (suc fuel) c ((pid, a) ∷ m) e wf z h =
    let at : find pid c.proc_map ≡ some a = ap (find pid) e ∙ rw (==-refl pid) refl in
    let (d, run, v) = vanish_process-Vanished pid a c wf z at in
    let shorter : length (erase pid c.proc_map) ≤ fuel =
      rw (e, ==-refl pid) (omega (arith, length-erase pid m)) in
    let (c', rest, emptied) =
      vanish_all-Emptied fuel d (erase pid c.proc_map) v.proc_map v.well_formed
        (ap is_zero v.capacity ∙ z) shorter in
    (
      c',
      ap (λ m. vanish_first (vanish_all fuel) m c) e
          ∙ and_then-done (vanish_process pid c) _ run
          ∙ rest,
      record {
        proc_map = emptied.proc_map;
        options = emptied.options ∙ v.options;
        balanced = emptied.balanced ∙ v.balanced;
      },
    )

-- The pieces of text of the report in `c` are defined: with `-h`, the sizes of its files and the total.
abbrev pub CanReport : Printer → Context → Type 0
CanReport p c =
    ((f : OutputFile)
      → Mem f (list_queue.items c.file_storage.queue)
      → CanPrint p.libc c.options f.size)
    × CanPrint p.libc c.options c.file_storage.output_size

final_report-Printed : (p : Printer) (c : Context) → CanReport p c → Printed (final_report p c)
unfolding final_report
final_report-Printed p c can = elim (Bool-cases (is_zero c.options.files_in_report)) [
  | inl e ↦ ([], rw e refl)
  | inr e ↦
      let (fs, t, kept, descending, printed, same) =
        print_report-Printed p.libc c.options p.iteration list_queue c.file_storage can.0 can.1 in
      (t, rw e printed)
]

-- How `PostProcess` of `c` ends, with `c'` the context after its loop: it returns its argument and has
-- printed the report; or, only with `-h` and a size whose text is not defined, it leaves what the
-- language defines, as it prints.
abbrev pub PostProcessed : Printer → ℤ → Context → Context → Type 0
PostProcessed p rc c c' =
    ((t : Text) × (final_report p c' ≡ some t) × (post_process p rc c ≡ done rc c'))
    ⊎ ((c.options.human_readable_sizes ≡ true)
        × (CanReport p c' → ⊥)
        × (post_process p rc c ≡ undefined))

true≢false : {b : Bool} → b ≡ true → b ≡ false → ⊥
true≢false e f = ground (arith, e, f)

none≢some : (t : Text) → none ≡ some t → ⊥
none≢some t e = absurd (ground (arith, e))

module _ (p : Printer) (rc : ℤ) (c c' : Context)
    (run : vanish_all (length c.proc_map) c ≡ done tt c') (same : c'.options ≡ c.options) where
  printing : post_process p rc c ≡ and_then (print_final p c') (λ _. done rc)
  unfolding post_process
  printing = and_then-done (vanish_all (length c.proc_map) c) _ run

  print_final-by :
      (o : Option Text)
      → final_report p c' ≡ o
      → print_final p c'
        ≡ (elim o as (λ _. Outcome (Unit {0})) [ none ↦ undefined | some t ↦ done tt c' ])
  unfolding print_final
  print_final-by o e =
      ap (λ o. elim o as (λ _. Outcome (Unit {0})) [ none ↦ undefined | some t ↦ done tt c' ]) e

  printed-PostProcessed : (o : Option Text) → final_report p c' ≡ o → PostProcessed p rc c c'
  printed-PostProcessed (some t) e =
      inl (t, e, printing ∙ ap (λ o. and_then o (λ _. done rc)) (print_final-by (some t) e))
  printed-PostProcessed none e = elim (Bool-cases c.options.human_readable_sizes) [
    | inl human ↦
        inr (human, missing, printing ∙ ap (λ o. and_then o (λ _. done rc)) (print_final-by none e))
    | inr bytes ↦
        let never : c'.options.human_readable_sizes ≡ false =
          ap (λ o. o.human_readable_sizes) same ∙ bytes in
        absurd (
          missing (
            (λ f m human. absurd (true≢false human never)),
            (λ human. absurd (true≢false human never)),
          ))
  ]
    where
      missing : CanReport p c' → ⊥
      missing can = let (t, there) = final_report-Printed p c' can in none≢some t (sym e ∙ there)

-- In a well-formed context whose report limit is not 0, the loop of `PostProcess` ends without a
-- failure, with no process left, and modulo `2 ^ 64` the total of the report is the total so far and
-- the output sizes of all files that were still open. Then the report is printed and `PostProcess`
-- returns its argument; unless `-h` is given and the text of the total or of the size of a file in the
-- report is not defined, where it leaves what the language defines.
pub post_process-total :
    (p : Printer) (rc : ℤ) (c : Context)
    → IsWellFormed c
    → is_zero c.file_storage.capacity ≡ false
    → (c' : Context) × PostProcessed p rc c c'
      × (c'.proc_map ≡ [])
      × (word c'.file_storage.output_size ≡ word (c.file_storage.output_size + owed c))
post_process-total p rc c wf z =
    let (c', run, emptied) =
      vanish_all-Emptied (length c.proc_map) c c.proc_map refl wf z (omega arith) in
    (
      c',
      printed-PostProcessed p rc c c' run emptied.options (final_report p c') refl,
      emptied.proc_map,
      sym (balance_nil c' emptied.proc_map) ∙ emptied.balanced,
    )
