-- ===== src/Context/Balance.antt =====
-- What is still owed to the report: the output sizes of the files that some live process holds open.
-- Closing a descriptor moves bytes from there to the storage and loses none.
use optrace.Prelude.{
  ℕ, zero, suc, ◌+◌, ◌≤◌, ◌≡◌, refl, ap, subst, ◌∙◌, Bool, true, false, some, List, [], ◌∷◌,
  get_elem?, ◌==◌, if◌then◌else◌, word, arith, Bool-cases, inl, inr, eq_of_==,
}
use native.Mathlib.Nat.{zero-add}
use optrace.Prelude.Int.{is_zero}
use optrace.FileState.{FileState, get_output_size}
use optrace.Types.{ProcInfoPtr, new_output_file}
use optrace.Storage.{Storage, add_file_entry}
use optrace.Storage.Queue.{list_queue}
use optrace.Storage.Largest.{is_ignored, output_size-add_file_entry}
use optrace.Context.{Context}
use optrace.Context.Objects.{
  fds_of, slot, points_to, is_mapped, use_count, count_refs, report_file, torn_down,
}
use optrace.Context.Counts.{cleared, count_refs-cleared}

-- The output sizes of the files from address `s` on that are in use.
abbrev pub owed_from : (ℕ → ℕ) → ℕ → List FileState → ℕ
owed_from uses s [] = 0
owed_from uses s (f ∷ fs) =
    (if uses s == 0 then 0 else get_output_size f) + owed_from uses (suc s) fs

unfoldable pub owed : Context → ℕ
owed c = owed_from (use_count c) 0 c.files

-- The total of the report, if all that is open were closed now.
abbrev pub balance : Context → ℕ
balance c = word (c.file_storage.output_size + owed c)

pub owed_from-cong :
    (uses uses' : ℕ → ℕ) (s : ℕ) (files : List FileState)
    → ((q : ℕ) → s ≤ q → uses q ≡ uses' q)
    → owed_from uses s files ≡ owed_from uses' s files
owed_from-cong uses uses' s [] h = refl
owed_from-cong uses uses' s (f ∷ fs) h =
    ground (arith, h s, owed_from-cong uses uses' (suc s) fs (λ q le. h q (omega arith)))

-- One pointer to the file at `s + i` goes: its size is no longer owed if that was the last one.
owed_from-drop :
    (uses uses' : ℕ → ℕ) (s i : ℕ) (files : List FileState) (f : FileState)
    → get_elem? files i ≡ some f
    → ((q : ℕ) → uses' q + points_to q (some (s + i)) ≡ uses q)
    → owed_from uses s files
      ≡ owed_from uses' s files + (if uses' (s + i) == 0 then get_output_size f else 0)
owed_from-drop uses uses' s i [] f e h = absurd (ground arith)
owed_from-drop uses uses' s zero (g ∷ fs) f e h =
    ground (arith, h s, owed_from-cong uses uses' (suc s) fs (λ q le. ground (arith, h q)))
owed_from-drop uses uses' s (suc i) (g ∷ fs) f e h =
    let shift : suc s + i ≡ s + suc i = omega arith in
    let rest = owed_from-drop uses uses' (suc s) i fs f e (λ q. rw shift (h q)) in
    ground (arith, h s, rest, shift)

-- What an operation leaves alone.
pub record SameMaps (c c' : Context) : Type 0 where
  pub proc_map : c'.proc_map ≡ c.proc_map
  pub group_leaders : c'.group_leaders ≡ c.group_leaders
  pub files : c'.files ≡ c.files
  pub capacity : c'.file_storage.capacity ≡ c.file_storage.capacity
  pub options : c'.options ≡ c.options

ignored_size :
    (b : Bool) (s : FileState) (pinfo : ProcInfoPtr)
    → is_ignored b (new_output_file s pinfo) ≡ true
    → get_output_size s ≡ 0
unfolding new_output_file
ignored_size b s pinfo h = ground arith

-- The entry of a file raises the total by its output size.
pub add_file_entry-output_size :
    (st : Storage list_queue) (x : ℕ) (s : FileState) (pinfo : ProcInfoPtr)
    → is_zero st.capacity ≡ false
    → word ((add_file_entry list_queue (new_output_file s pinfo) st).output_size + x)
      ≡ word (st.output_size + (get_output_size s + x))
add_file_entry-output_size st x s pinfo z =
    let (cap, store, out) = output_size-add_file_entry list_queue (new_output_file s pinfo) st z in
    elim (Bool-cases (is_ignored st.store_empty_files (new_output_file s pinfo))) [
      | inl skip ↦ rw (out, skip) (omega (arith, ignored_size st.store_empty_files s pinfo skip))
      | inr take ↦ rw (out, take) (unfold new_output_file in omega arith)
    ]

-- The context after `TearDownFd`, with the last pointer to a file and with another one.
abbrev after_last : ℕ → ℕ → FileState → ProcInfoPtr → Context → Context
after_last a fd s pinfo c = record c {
  procs = cleared a fd c.procs;
  file_storage = add_file_entry list_queue (new_output_file s pinfo) c.file_storage;
}

abbrev after_shared : ℕ → ℕ → Context → Context
after_shared a fd c = record c { procs = cleared a fd c.procs }

pub torn_down_last :
    (a fd r : ℕ) (s : FileState) (pinfo : ProcInfoPtr) (c : Context)
    → get_elem? c.files r ≡ some s
    → use_count c r ≡ 1
    → torn_down a fd r pinfo c ≡ after_last a fd s pinfo c
unfolding torn_down
torn_down_last a fd r s pinfo c e u =
    let one : (use_count c r == 1) ≡ true = rw u refl in rw (one, e, report_file) refl

pub torn_down_shared :
    (a fd r : ℕ) (pinfo : ProcInfoPtr) (c : Context)
    → (use_count c r == 1) ≡ false
    → torn_down a fd r pinfo c ≡ after_shared a fd c
unfolding torn_down
torn_down_shared a fd r pinfo c u = rw u refl

module _ (a fd r : ℕ) (s : FileState) (c : Context) (m : is_mapped a c.proc_map ≡ true)
    (p : slot (fds_of a c.procs) fd ≡ some r) (e : get_elem? c.files r ≡ some s) where
  -- The counts after the slot is cleared.
  abbrev uses_after : ℕ → ℕ
  uses_after q = count_refs c.proc_map q 0 (cleared a fd c.procs)

  uses_drop : (q : ℕ) → uses_after q + points_to q (some r) ≡ use_count c q
  unfolding use_count
  uses_drop q =
      omega
        (arith, count_refs-cleared c.proc_map q 0 c.procs a fd (rw zero-add m), ap (points_to q) p)

  owed_drop :
      owed c ≡ owed_from uses_after 0 c.files + (if uses_after r == 0 then get_output_size s else 0)
  unfolding owed
  owed_drop =
      let at : 0 + r ≡ r = omega arith in
      subst
        (λ n.
          owed_from (use_count c) 0 c.files
          ≡ owed_from uses_after 0 c.files + (if uses_after n == 0 then get_output_size s else 0))
        at (owed_from-drop (use_count c) uses_after 0 r c.files s e (rw at uses_drop))

  after_owed :
      (pinfo : ProcInfoPtr) → owed (after_last a fd s pinfo c) ≡ owed_from uses_after 0 c.files
  unfolding owed use_count
  after_owed pinfo = refl

  after_owed_shared : owed (after_shared a fd c) ≡ owed_from uses_after 0 c.files
  unfolding owed use_count
  after_owed_shared = refl

  -- `TearDownFd` on a slot of a live process that points to a file keeps the balance, if the report
  -- limit is not 0: modulo `2 ^ 64`, the total so far and the sizes of the files still open.
  pub torn_down-balance :
      (pinfo : ProcInfoPtr)
      → is_zero c.file_storage.capacity ≡ false
      → balance (torn_down a fd r pinfo c) ≡ balance c
  torn_down-balance pinfo z = elim (Bool-cases (use_count c r == 1)) [
    | inl last ↦
        let one : use_count c r ≡ 1 = eq_of_== (use_count c r) 1 last in
        let gone : (uses_after r == 0) ≡ true = ground (arith, uses_drop r) in
        let owing : owed c ≡ owed_from uses_after 0 c.files + get_output_size s =
          rw gone at owed_drop in
        rw (torn_down_last a fd r s pinfo c e one, after_owed)
          (add_file_entry-output_size c.file_storage (owed_from uses_after 0 c.files) s pinfo z
            ∙ ap (λ (n : ℕ). word (c.file_storage.output_size + n)) (omega (arith, owing)))
    | inr more ↦
        let left : (uses_after r == 0) ≡ false = ground (arith, uses_drop r) in
        let owing : owed c ≡ owed_from uses_after 0 c.files + 0 = rw left at owed_drop in
        rw (torn_down_shared a fd r pinfo c more) (
          ap (λ (n : ℕ). word (c.file_storage.output_size + n))
            (omega (arith, owing, after_owed_shared)))
  ]
