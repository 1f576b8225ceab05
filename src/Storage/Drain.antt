-- ===== src/Storage/Drain.antt =====
-- The loop of `GetLargestFiles`.
use mathlib.Core.List.{
  Perm, append_assoc, append-nil, map-append, perm_append_singleton, mem-cons_of_mem,
}
use mathlib.Core.List.Perm
use optrace.Prelude.{
  ℕ, zero, suc, ◌-◌, ◌≤◌, ◌≡◌, refl, ap, sym, subst, false, ◌==◌, ◌∙◌, Option, none, some, List, [],
  ◌∷◌, ◌++◌, map, length, set, replicate, All, arith, Option-cases, inl, inr,
}
use optrace.Prelude.Perms.{length-perm, All-of_mem}
use optrace.Types.{OutputFile}
use optrace.Storage.Queue.{PriorityQueue}
use optrace.Storage.{Storage, drain, get_largest_files}

-- From the largest file to the smallest.
abbrev pub Descending : List OutputFile → Type 0
Descending [] = Unit {0}
Descending (f ∷ fs) = All (λ g. g.size ≤ f.size) fs × Descending fs

All-append_singleton :
    (n : ℕ) (fs : List OutputFile) (t : OutputFile)
    → All (λ g. g.size ≤ n) fs
    → t.size ≤ n
    → All (λ g. g.size ≤ n) (fs ++ t ∷ [])
All-append_singleton n [] t h l = (l, tt)
All-append_singleton n (f ∷ fs) t h l = (h.0, All-append_singleton n fs t h.1 l)

Descending-append_singleton :
    (fs : List OutputFile) (t : OutputFile)
    → Descending fs
    → All (λ g. t.size ≤ g.size) fs
    → Descending (fs ++ t ∷ [])
Descending-append_singleton [] t d h = (tt, tt)
Descending-append_singleton (f ∷ fs) t d h =
    (All-append_singleton f.size fs t d.0 h.0, Descending-append_singleton fs t d.1 h.1)

set-replicate {ℓ} :
    {A : Type ℓ} (k : ℕ) (a v : A) (ys : List A)
    → set (replicate (suc k) a ++ ys) k v ≡ replicate k a ++ v ∷ ys
set-replicate zero a v ys = refl
set-replicate (suc k) a v ys = ap (◌∷◌ a) (set-replicate k a v ys)

module _ (pq : PriorityQueue) where
  open pq use {items, pop, top, size, size-length, top-none, top-perm, top-least}

  -- What the loop makes of a queue of `k` entries and a result whose first `k` places are free.
  abbrev Drains : ℕ → pq.Queue → List (Option OutputFile) → Type 0
  Drains k q ys =
      (fs : List OutputFile) × (drain pq k q (replicate k none ++ ys) ≡ map some fs ++ ys)
      × Perm fs (items q)
      × Descending fs

  drain-suc :
      (k : ℕ) (q : pq.Queue) (ys : List (Option OutputFile)) (t : OutputFile)
      → size q ≡ suc k
      → top q ≡ some t
      → drain pq (suc k) q (replicate (suc k) none ++ ys)
        ≡ drain pq k (pop q) (replicate k none ++ some t ∷ ys)
  unfolding drain
  drain-suc k q ys t n e =
      let left : (size q == 0) ≡ false = ground arith in
      let place : size q - 1 ≡ k = omega arith in
      rw (left, place, e) (ap (drain pq k (pop q)) (set-replicate k none (some t) ys))

  Drains-step :
      (k : ℕ) (q : pq.Queue) (ys : List (Option OutputFile)) (t : OutputFile)
      → size q ≡ suc k
      → top q ≡ some t
      → Drains k (pop q) (some t ∷ ys)
      → Drains (suc k) q ys
  Drains-step k q ys t n e (fs, run, p, d) = (
    fs ++ t ∷ [],
    drain-suc k q ys t n e
        ∙ run
        ∙ sym (rw map-append (append_assoc (map some fs) (some t ∷ []) ys)),
    Perm.trans (perm_append_singleton t fs) (Perm.trans (Perm.cons t p) (Perm.symm whole)),
    Descending-append_singleton fs t d (
        All-of_mem fs λ g m.
          top-least q t e g ((Perm.mem_iff whole).1 (mem-cons_of_mem t ((Perm.mem_iff p).0 m)))),
  )
    where
      whole : Perm (items q) (t ∷ items (pop q))
      whole = top-perm q t e

  size-pop : (q : pq.Queue) (t : OutputFile) → top q ≡ some t → size q ≡ suc (size (pop q))
  size-pop q t e = omega (arith, size-length q, size-length (pop q), length-perm (top-perm q t e))

  items-nil : (xs : List OutputFile) → length xs ≡ 0 → xs ≡ []
  items-nil [] h = refl
  items-nil (x ∷ xs) h = absurd (omega arith)

  drain-Drains : (k : ℕ) (q : pq.Queue) (ys : List (Option OutputFile)) → size q ≡ k → Drains k q ys
  unfolding drain
  drain-Drains zero q ys n =
      ([], refl, rw (items-nil (items q) (omega (arith, size-length q))) Perm.rfl, tt)
  drain-Drains (suc k) q ys n = elim (Option-cases (top q)) [
    | inl e ↦ absurd (omega (arith, size-length q, ap length (top-none q e)))
    | inr (t, e) ↦
        Drains-step k q ys t n e
          (drain-Drains k (pop q) (some t ∷ ys) (omega (arith, size-pop q t e)))
  ]

  -- `GetLargestFiles` returns every entry of the queue once and no null pointer, the largest first.
  pub get_largest_files-Descending :
      (s : Storage pq)
      → (fs : List OutputFile) × (get_largest_files pq s ≡ map some fs)
        × Perm fs (items s.queue)
        × Descending fs
  unfolding get_largest_files
  get_largest_files-Descending s =
      let (fs, run, p, d) = drain-Drains (size s.queue) s.queue [] refl in
      (
        fs,
        subst (λ res. drain pq (size s.queue) s.queue res ≡ map some fs) (append-nil _)
            (run ∙ append-nil _),
        p,
        d,
      )
