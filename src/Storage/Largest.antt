-- ===== src/Storage/Largest.antt =====
-- Which files a storage with a limit keeps, and what it counts.
use mathlib.Core.List.{
  Perm, Mem, append-nil, perm_middle, mem-cons, mem-cons_self, mem-cons_of_mem, not-mem-nil,
}
use mathlib.Core.List.Perm
use mathlib.Core.Logic.Or
use native.Mathlib.Bridge.{le_prop}
use optrace.Prelude.{
  ℕ, suc, ◌+◌, ◌^◌, ◌≤◌, ◌<◌, ◌≡◌, refl, ap, subst, ◌∙◌, ◌⊎◌, inl, inr, Bool, true, false, not,
  ◌&&◌, ◌||◌, some, List, [], ◌∷◌, ◌++◌, length, ltb, ◌==◌, if◌then◌else◌, word, arith, Bool-cases,
  Option-cases,
}
use optrace.Prelude.Int.{ℤ, pos, is_zero, is_negative, pos_part}
use optrace.Prelude.Perms.{total, length-perm}
use optrace.Types.{OutputFile}
use optrace.Storage.Queue.{PriorityQueue}
use optrace.Storage.{Storage, new_storage, add_file_entry, top_below}

-- An empty file is passed over unless the storage is told to keep those.
abbrev pub is_ignored : Bool → OutputFile → Bool
is_ignored store_empty file = not store_empty && (file.size == 0)

abbrev pub accepted : Bool → List OutputFile → List OutputFile
accepted store_empty [] = []
accepted store_empty (f ∷ fs) =
    if is_ignored store_empty f then accepted store_empty fs else f ∷ accepted store_empty fs

-- The largest `n` of `seen` are kept: what was dropped is no larger than what is kept, and something
-- is dropped only if `n` are kept.
pub record Keeps (n : ℕ) (seen kept : List OutputFile) : Type 0 where
  pub dropped : List OutputFile
  pub all : Perm seen (kept ++ dropped)
  pub below : (d k : OutputFile) → Mem d dropped → Mem k kept → d.size ≤ k.size
  pub fits : length kept ≤ n
  pub full : (dropped ≡ []) ⊎ (length kept ≡ n)

module _ (pq : PriorityQueue) where
  open pq use {
    items, push, pop, top, size, items-empty, items-push, size-length, top-none, top-perm,
    top-least,
  }

  module _ {n : ℕ} {seen : List OutputFile} {q : pq.Queue} (f : OutputFile)
      (kept : Keeps n seen (items q)) where
    open kept use {dropped, all, below, fits, full}

    -- There is room.
    keep_room : size q < n → Keeps n (f ∷ seen) (items (push q f))
    keep_room room = record {
      dropped = dropped;
      all = Perm.trans (Perm.cons f all) (Perm.append_right dropped (Perm.symm (items-push q f)));
      below = λ d k m. absurd (not-mem-nil (subst (Mem d) none_dropped m));
      fits = omega (arith, length-perm (items-push q f), size-length q);
      full = inl none_dropped;
    }
      where
        none_dropped : dropped ≡ []
        none_dropped = elim full [ inl e ↦ e | inr e ↦ absurd (omega (arith, size-length q)) ]

    -- The smallest entry makes room.
    keep_instead :
        (t : OutputFile)
        → top q ≡ some t
        → n ≤ size q
        → t.size < f.size
        → Keeps n (f ∷ seen) (items (push (pop q) f))
    keep_instead t e over smaller = record {
      dropped = t ∷ dropped;
      all = Perm.trans (Perm.cons f (Perm.trans all (Perm.append_right dropped whole))) (
          Perm.trans (Perm.cons f (Perm.symm (perm_middle (items (pop q)) dropped)))
            (Perm.append_right (t ∷ dropped) (Perm.symm (items-push (pop q) f))));
      below = λ d k md mk.
          Or.elim le_prop (mem-cons.0 md) (λ is. rw is (bound k t.size (top-least q t e) mk))
            (λ m. bound k d.size (λ g mg. below d g m mg) mk);
      fits = omega (arith, length-perm (items-push (pop q) f), length-perm whole);
      full =
          inr (omega (arith, length-perm (items-push (pop q) f), length-perm whole, size-length q));
    }
      where
        whole : Perm (items q) (t ∷ items (pop q))
        whole = top-perm q t e

        bound :
            (k : OutputFile) (m : ℕ)
            → ((g : OutputFile) → Mem g (items q) → m ≤ g.size)
            → Mem k (items (push (pop q) f))
            → m ≤ k.size
        bound k m h mk =
            Or.elim le_prop (mem-cons.0 ((Perm.mem_iff (items-push (pop q) f)).0 mk))
              (λ is. rw is (omega (arith, h t ((Perm.mem_iff whole).1 mem-cons_self))))
              (λ rest. h k ((Perm.mem_iff whole).1 (mem-cons_of_mem t rest)))

    -- The new entry is no larger than any other.
    keep_old :
        (t : OutputFile)
        → top q ≡ some t
        → n ≤ size q
        → f.size ≤ t.size
        → Keeps n (f ∷ seen) (items q)
    keep_old t e over smaller = record {
      dropped = f ∷ dropped;
      all = Perm.trans (Perm.cons f all) (Perm.symm (perm_middle (items q) dropped));
      below = λ d k md mk.
          Or.elim le_prop (mem-cons.0 md) (λ is. rw is (omega (arith, top-least q t e k mk)))
            (λ m. below d k m mk);
      fits = fits;
      full = inr (omega (arith, size-length q));
    }

  -- The three cases are those of the code.
  abbrev next_queue : ℤ → pq.Queue → OutputFile → pq.Queue
  next_queue capacity q f =
      if is_negative capacity || ltb (size q) (pos_part capacity)
      then push q f
      else if top_below (top q) f.size
      then push (pop q) f
      else q

  next_queue-Keeps :
      (n : ℕ) (seen : List OutputFile) (q : pq.Queue) (f : OutputFile)
      → Keeps (suc n) seen (items q)
      → Keeps (suc n) (f ∷ seen) (items (next_queue (pos (suc n)) q f))
  next_queue-Keeps n seen q f kept = elim (Bool-cases (ltb (size q) (suc n))) [
    | inl room ↦ rw room (keep_room f kept (ground arith))
    | inr over ↦ elim (Option-cases (top q)) [
      | inl e ↦ absurd (ground (arith, size-length q, ap length (top-none q e)))
      | inr (t, e) ↦ elim (Bool-cases (ltb t.size f.size)) [
        | inl smaller ↦
            rw (over, e, smaller) (keep_instead f kept t e (ground arith) (ground arith))
        | inr larger ↦ rw (over, e, larger) (keep_old f kept t e (ground arith) (ground arith))
      ]
    ]
  ]

  -- One entry after the other, from the first of the list on.
  unfoldable pub add_all : List OutputFile → Storage pq → Storage pq
  add_all [] s = s
  add_all (f ∷ fs) s = add_all fs (add_file_entry pq f s)

  -- A storage with the limit `suc n`.
  abbrev limited : ℕ → Bool → ℕ → pq.Queue → Storage pq
  limited n e out q = record {
    capacity = pos (suc n);
    output_size = out;
    store_empty_files = e;
    queue = q;
  }

  add_all-ignored :
      (f : OutputFile) (fs : List OutputFile) (n : ℕ) (e : Bool) (out : ℕ) (q : pq.Queue)
      → is_ignored e f ≡ true
      → add_all (f ∷ fs) (limited n e out q) ≡ add_all fs (limited n e out q)
  unfolding add_all add_file_entry
  add_all-ignored f fs n e out q h = rw h

  add_all-accepted :
      (f : OutputFile) (fs : List OutputFile) (n : ℕ) (e : Bool) (out : ℕ) (q : pq.Queue)
      → is_ignored e f ≡ false
      → add_all (f ∷ fs) (limited n e out q)
        ≡ add_all fs (limited n e (word (out + f.size)) (next_queue (pos (suc n)) q f))
  unfolding add_all add_file_entry
  add_all-accepted f fs n e out q h = rw h

  Keeps-perm :
      {n : ℕ} {seen seen' kept : List OutputFile}
      → Perm seen' seen
      → Keeps n seen kept
      → Keeps n seen' kept
  Keeps-perm p k = record {
    dropped = k.dropped;
    all = Perm.trans p k.all;
    below = k.below;
    fits = k.fits;
    full = k.full;
  }

  add_all-Keeps :
      (fs : List OutputFile) (n : ℕ) (e : Bool) (out : ℕ) (q : pq.Queue) (seen : List OutputFile)
      → Keeps (suc n) seen (items q)
      → Keeps (suc n) (accepted e fs ++ seen) (items (add_all fs (limited n e out q)).queue)
  unfolding add_all
  add_all-Keeps [] n e out q seen k = k
  add_all-Keeps (f ∷ fs) n e out q seen k = elim (Bool-cases (is_ignored e f)) [
    | inl skip ↦ rw (add_all-ignored f fs n e out q skip, skip) (add_all-Keeps fs n e out q seen k)
    | inr take ↦
        rw (add_all-accepted f fs n e out q take, take)
          (Keeps-perm (Perm.symm (perm_middle (accepted e fs) seen))
            (add_all-Keeps fs n e _ _ (f ∷ seen) (next_queue-Keeps n seen q f k)))
  ]

  -- A storage with a positive limit, once it has been handed the files `fs` one after the other, holds
  -- the largest of those that it does not ignore: at most as many as the limit, and what was dropped
  -- is no larger than anything that is held and was dropped only because the limit was reached.
  pub add_all-new_storage-Keeps :
      (fs : List OutputFile) (n : ℕ) (e : Bool)
      → Keeps (suc n) (accepted e fs) (items (add_all fs (new_storage pq (pos (suc n)) e)).queue)
  unfolding new_storage
  add_all-new_storage-Keeps fs n e = Keeps-perm (rw append-nil Perm.rfl) (
      add_all-Keeps fs n e 0 pq.empty [] (
        rw items-empty (record {
          dropped = [];
          all = Perm.rfl;
          below = λ d k m. absurd (not-mem-nil m);
          fits = omega arith;
          full = inl refl;
        })))

  add_all-zero :
      (fs : List OutputFile) (s : Storage pq) → is_zero s.capacity ≡ true → add_all fs s ≡ s
  unfolding add_all add_file_entry
  add_all-zero [] s h = refl
  add_all-zero (f ∷ fs) s h = rw h (add_all-zero fs s h)

  pub output_size-add_file_entry :
      (f : OutputFile) (s : Storage pq)
      → is_zero s.capacity ≡ false
      → let s' = add_file_entry pq f s in
        (s'.capacity ≡ s.capacity)
        × (s'.store_empty_files ≡ s.store_empty_files)
        × (s'.output_size ≡ (
            if is_ignored s.store_empty_files f
            then s.output_size
            else word (s.output_size + f.size)))
  unfolding add_file_entry
  output_size-add_file_entry f s h = elim (Bool-cases (is_ignored s.store_empty_files f)) [
    | inl e ↦ rw (h, e) (refl, refl, refl)
    | inr e ↦ rw (h, e) (refl, refl, refl)
  ]

  cap-zero :
      (s' s : Storage pq)
      → s'.capacity ≡ s.capacity
      → is_zero s.capacity ≡ false
      → is_zero s'.capacity ≡ false
  cap-zero s' s e h = ap is_zero e ∙ h

  total_from :
      (fs : List OutputFile) (s : Storage pq) (e : Bool) (out : ℕ)
      → is_zero s.capacity ≡ false
      → s.store_empty_files ≡ e
      → s.output_size ≡ out
      → out < 2 ^ 64
      → (add_all fs s).output_size ≡ word (out + total (λ f. f.size) (accepted e fs))
  unfolding add_all
  total_from [] s e out h se so lt = omega arith
  total_from (f ∷ fs) s e out h se so lt =
      let (cap, store, size) = output_size-add_file_entry f s h in
      let s' = add_file_entry pq f s in
      elim (Bool-cases (is_ignored e f)) [
        | inl skip ↦
            rw skip (
              total_from fs s' e out (cap-zero s' s cap h) (store ∙ se) (size ∙ rw (se, skip) so)
                lt)
        | inr take ↦ rw take (
            total_from fs s' e (word (out + f.size)) (cap-zero s' s cap h) (store ∙ se)
              (size ∙ rw (se, take, so) refl) (omega arith)
            ∙ omega arith)
      ]

  -- A storage whose limit is not 0 counts every file that it does not ignore, kept or not: the total
  -- is the sum of their sizes on top of the earlier total, modulo `2 ^ 64`. With a limit of 0 the
  -- total does not change.
  pub add_all-total :
      (fs : List OutputFile) (s : Storage pq)
      → s.output_size < 2 ^ 64
      → (add_all fs s).output_size ≡ (
          if is_zero s.capacity
          then s.output_size
          else word (s.output_size + total (λ f. f.size) (accepted s.store_empty_files fs)))
  add_all-total fs s lt = elim (Bool-cases (is_zero s.capacity)) [
    | inl e ↦ rw e (ap (λ (t : Storage pq). t.output_size) (add_all-zero fs s e))
    | inr e ↦ rw e (total_from fs s s.store_empty_files s.output_size e refl refl lt)
  ]
