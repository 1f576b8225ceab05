-- ===== src/Context/WellFormed.antt =====
-- The invariant of the process table, and what the removal of an entry does to it.
use optrace.Prelude.{
  ℕ, suc, ◌+◌, ◌≤◌, ◌<◌, ◌≡◌, ◌≢◌, refl, sym, ap, subst, ◌∙◌, ◌⊎◌, inl, inr, true, false, Option,
  none, some, List, [], ◌∷◌, length, ◌==◌, arith, Bool-cases, eq_of_==, word,
}
use native.Mathlib.Nat.{zero-add}
use optrace.Prelude.Maps.{find, erase, has_key, member, remove, find-erase, member-remove}
use optrace.Types.{ProcState}
use optrace.Context.{Context}
use optrace.Context.Objects.{fds_of, slot, occurrences, points_to, is_mapped, count_refs, use_count}
use optrace.Context.Balance.{balance, owed, owed_from-cong}
use optrace.Context.Vanish.{HasFiles}

-- A process that holds no pointer.
abbrev pub IsEmpty : ℕ → Context → Type 0
IsEmpty a c = (fd : ℕ) → slot (fds_of a c.procs) fd ≡ none

-- A group leader still stands for the process.
abbrev pub HasLeader : ℕ → Context → Type 0
HasLeader a c = (pid : ℕ) × (member pid c.group_leaders ≡ true) × (find pid c.proc_map ≡ some a)

pub record IsWellFormed (c : Context) : Type 0 where
  -- Pointers lead to objects.
  pub files : HasFiles c
  pub procs : (a : ℕ) → is_mapped a c.proc_map ≡ true → a < length c.procs
  -- A process whose leader is gone holds no file open, so that none is lost with its last thread.
  pub led : (a : ℕ) → is_mapped a c.proc_map ≡ true → HasLeader a c ⊎ IsEmpty a c
  -- Every group leader is known.
  pub leaders : (pid : ℕ) → member pid c.group_leaders ≡ true → has_key pid c.proc_map ≡ true

pub is_mapped_of_find : (pid a : ℕ) (m : List (ℕ × ℕ)) → find pid m ≡ some a → is_mapped a m ≡ true
is_mapped_of_find pid a [] h = absurd (ground arith)
is_mapped_of_find pid a ((j, b) ∷ m) h = ground (arith, is_mapped_of_find pid a m)

pub is_mapped-erase :
    (pid a : ℕ) (m : List (ℕ × ℕ)) → is_mapped a (erase pid m) ≡ true → is_mapped a m ≡ true
is_mapped-erase pid a [] h = h
is_mapped-erase pid a ((j, b) ∷ m) h = ground (arith, is_mapped-erase pid a m)

pub remove_absent : (k : ℕ) (s : List ℕ) → member k s ≡ false → remove k s ≡ s
remove_absent k [] h = refl
remove_absent k (j ∷ s) h = ground (arith, remove_absent k s)

pub length-erase : (k : ℕ) {V : Type 0} (m : List (ℕ × V)) → length (erase k m) ≤ length m
length-erase k [] = omega arith
length-erase k ((j, v) ∷ m) = ground (arith, length-erase k m)

occurrences-none :
    (q : ℕ) (fds : List (Option ℕ)) → ((fd : ℕ) → slot fds fd ≡ none) → occurrences q fds ≡ 0
occurrences-none q [] h = refl
occurrences-none q (p ∷ fds) h =
    omega (arith, ap (points_to q) (h 0), occurrences-none q fds (λ fd. h (suc fd)))

-- Two tables count alike where they map the same processes, but for empty ones.
count_refs-cong :
    (m m' : List (ℕ × ℕ)) (q s : ℕ) (procs : List ProcState)
    → ((b : ℕ)
        → (is_mapped (s + b) m ≡ is_mapped (s + b) m')
          ⊎ ((fd : ℕ) → slot (fds_of b procs) fd ≡ none))
    → count_refs m q s procs ≡ count_refs m' q s procs
unfolding count_refs
count_refs-cong m m' q s [] h = refl
count_refs-cong m m' q s (p ∷ ps) h =
    let rest = count_refs-cong m m' q (suc s) ps λ b. elim (h (suc b)) [
      | inl e ↦ inl (subst (λ n. is_mapped n m ≡ is_mapped n m') (omega arith) e)
      | inr e ↦ inr e
    ] in
    elim (h 0) [
      | inl e ↦
          let here : is_mapped s m ≡ is_mapped s m' =
            subst (λ n. is_mapped n m ≡ is_mapped n m') (omega arith) e in
          rw (here, rest) refl
      | inr e ↦ ground (arith, occurrences-none q p.fds e, rest)
    ]

true≢false : true ≢ false
true≢false h = cc

-- The context after the last two statements of `VanishProcess`.
abbrev pub erased : ℕ → Context → Context
erased pid c = record c {
  group_leaders = remove pid c.group_leaders;
  proc_map = erase pid c.proc_map;
}

module _ (pid a : ℕ) (c : Context) (wf : IsWellFormed c) (at : find pid c.proc_map ≡ some a)
    (closed : (member pid c.group_leaders ≡ false) ⊎ IsEmpty a c) where
  left-IsEmpty :
      (b l : ℕ)
      → pid ≡ l
      → member l c.group_leaders ≡ true
      → find l c.proc_map ≡ some b
      → IsEmpty b c
  left-IsEmpty b l same leads e = elim closed [
    | inl not_leader ↦
        absurd (true≢false (sym leads ∙ ap (λ n. member n c.group_leaders) (sym same) ∙ not_leader))
    | inr empty ↦
        let one : a ≡ b = ground (arith, ap (λ n. find n c.proc_map) same) in
        subst (λ n. IsEmpty n c) one empty
  ]

  -- The entry takes with it no process that still holds a file.
  keeps_mapped : (b : ℕ) → is_mapped b c.proc_map ≡ true → HasLeader b (erased pid c) ⊎ IsEmpty b c
  keeps_mapped b m = elim (wf.led b m) [
    | inr e ↦ inr e
    | inl (l, leads, e) ↦ elim (Bool-cases (pid == l)) [
      | inr other ↦ inl (
        l,
        rw (member-remove pid l c.group_leaders, other) leads,
        rw (find-erase pid l c.proc_map, other) e,
      )
      | inl same ↦ inr (left-IsEmpty b l (eq_of_== pid l same) leads e)
    ]
  ]

  owed-erased : owed (erased pid c) ≡ owed c
  unfolding owed use_count
  owed-erased = owed_from-cong (use_count (erased pid c)) (use_count c) 0 c.files λ q _.
      count_refs-cong (erase pid c.proc_map) c.proc_map q 0 c.procs
        λ b. rw zero-add (same_or_empty b)
    where
      same_or_empty :
          (b : ℕ) → (is_mapped b (erase pid c.proc_map) ≡ is_mapped b c.proc_map) ⊎ IsEmpty b c
      same_or_empty b = elim (Bool-cases (is_mapped b (erase pid c.proc_map))) [
        | inl m ↦ inl (m ∙ sym (is_mapped-erase pid b c.proc_map m))
        | inr n ↦ elim (Bool-cases (is_mapped b c.proc_map)) [
          | inr o ↦ inl (n ∙ sym o)
          | inl m ↦ elim (keeps_mapped b m) [
            | inr empty ↦ inr empty
            | inl (l, leads, e) ↦ absurd (true≢false (sym (is_mapped_of_find l b _ e) ∙ n))
          ]
        ]
      ]

  -- Taking the entry out keeps the invariant and the balance.
  pub erased-IsWellFormed : IsWellFormed (erased pid c)
  erased-IsWellFormed = record {
    files = wf.files;
    procs = λ b m. wf.procs b (is_mapped-erase pid b c.proc_map m);
    led = λ b m. keeps_mapped b (is_mapped-erase pid b c.proc_map m);
    leaders = λ l m. still_known l (Bool-cases (pid == l)) m;
  }
    where
      still_known :
          (l : ℕ)
          → ((pid == l) ≡ true) ⊎ ((pid == l) ≡ false)
          → member l (remove pid c.group_leaders) ≡ true
          → has_key l (erase pid c.proc_map) ≡ true
      still_known l d m =
          ground
            (arith, member-remove pid l c.group_leaders, find-erase pid l c.proc_map, wf.leaders l)

  pub erased-balance : balance (erased pid c) ≡ balance c
  erased-balance = ap (λ (n : ℕ). word (c.file_storage.output_size + n)) owed-erased
