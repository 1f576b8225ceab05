-- ===== src/Storage/Queue.antt =====
-- What `std::priority_queue` with `TFileSizeGreater` promises, and an implementation.
use mathlib.Core.List.{Perm, Mem, mem-cons, not-mem-nil}
use mathlib.Core.Logic.Or
use native.Mathlib.Bridge.{le_prop}
use native.Mathlib.Nat.{le_refl}
use mathlib.Core.List.Perm
use optrace.Prelude.{
  ℕ, ◌≤◌, ◌≡◌, refl, subst, Option, none, some, List, [], ◌∷◌, All, length, ltb, if◌then◌else◌,
  arith, Bool-cases, inl, inr,
}
use optrace.Types.{OutputFile}

-- `top` is an entry of the smallest size, and `pop` takes it out. `items` are the entries in some order.
pub record PriorityQueue : Type 1 where
  pub Queue : Type 0
  pub empty : Queue
  pub push : Queue → OutputFile → Queue
  pub pop : Queue → Queue
  pub top : Queue → Option OutputFile
  pub size : Queue → ℕ
  pub items : Queue → List OutputFile
  pub items-empty : items empty ≡ []
  pub items-push : (q : Queue) (f : OutputFile) → Perm (items (push q f)) (f ∷ items q)
  pub size-length : (q : Queue) → size q ≡ length (items q)
  pub top-none : (q : Queue) → top q ≡ none → items q ≡ []
  pub top-perm : (q : Queue) (f : OutputFile) → top q ≡ some f → Perm (items q) (f ∷ items (pop q))
  pub top-least :
      (q : Queue) (f : OutputFile)
      → top q ≡ some f
      → (g : OutputFile) → Mem g (items q)
      → f.size ≤ g.size

le_of_mem :
    {n : ℕ} (xs : List OutputFile) (g : OutputFile)
    → All (λ f. n ≤ f.size) xs
    → Mem g xs
    → n ≤ g.size
le_of_mem [] g h m = absurd (not-mem-nil m)
le_of_mem (x ∷ xs) g h m =
    Or.elim le_prop (mem-cons.0 m) (λ e. rw e h.0) (λ rest. le_of_mem xs g h.1 rest)

-- The smallest entry of a list that is not empty, and the others.
unfoldable pub extract : OutputFile → List OutputFile → OutputFile × List OutputFile
extract x [] = (x, [])
extract x (y ∷ ys) =
    let (m, rest) = extract y ys in if ltb m.size x.size then (m, x ∷ rest) else (x, y ∷ ys)

extract-perm :
    (x : OutputFile) (xs : List OutputFile) → Perm (x ∷ xs) ((extract x xs).0 ∷ (extract x xs).1)
unfolding extract
extract-perm x [] = Perm.rfl
extract-perm x (y ∷ ys) = elim (Bool-cases (ltb (extract y ys).0.size x.size)) [
  | inl below ↦
      rw below (
        Perm.trans (Perm.cons x (extract-perm y ys))
          (Perm.swap (extract y ys).0 x (extract y ys).1))
  | inr above ↦ rw above Perm.rfl
]

-- The least size is a variable, so that the induction can lower it.
extract-least_from :
    (x : OutputFile) (xs : List OutputFile) (n : ℕ)
    → n ≤ (extract x xs).0.size
    → All (λ g. n ≤ g.size) (x ∷ xs)
unfolding extract
extract-least_from x [] n h = (h, tt)
extract-least_from x (y ∷ ys) n h = (ground arith, extract-least_from y ys n (ground arith))

extract-least :
    (x : OutputFile) (xs : List OutputFile) → All (λ g. (extract x xs).0.size ≤ g.size) (x ∷ xs)
extract-least x xs = extract-least_from x xs (extract x xs).0.size (le_refl _)

unfoldable pub list_top : List OutputFile → Option OutputFile
list_top [] = none
list_top (x ∷ xs) = some (extract x xs).0

unfoldable pub list_pop : List OutputFile → List OutputFile
list_pop [] = []
list_pop (x ∷ xs) = (extract x xs).1

pub list_top-none : (q : List OutputFile) → list_top q ≡ none → q ≡ []
unfolding list_top
list_top-none [] h = refl
list_top-none (x ∷ xs) h = cc

pub list_top-perm :
    (q : List OutputFile) (f : OutputFile) → list_top q ≡ some f → Perm q (f ∷ list_pop q)
unfolding list_top list_pop
list_top-perm [] f h = cc
list_top-perm (x ∷ xs) f h =
    let head : (extract x xs).0 ≡ f = ground arith in
    subst (λ g. Perm (x ∷ xs) (g ∷ (extract x xs).1)) head (extract-perm x xs)

pub list_top-least :
    (q : List OutputFile) (f : OutputFile)
    → list_top q ≡ some f
    → (g : OutputFile) → Mem g q
    → f.size ≤ g.size
unfolding list_top
list_top-least [] f h g m = cc
list_top-least (x ∷ xs) f h g m =
    let head : (extract x xs).0 ≡ f = ground arith in
    subst (λ e. e.size ≤ g.size) head (le_of_mem (x ∷ xs) g (extract-least x xs) m)

-- A list that is searched for its smallest entry. It serves the runs of the other modules.
abbrev pub list_queue : PriorityQueue
unfolding extract list_top list_pop
list_queue = record {
  Queue = List OutputFile;
  empty = [];
  push = λ q f. f ∷ q;
  pop = list_pop;
  top = list_top;
  size = length;
  items = λ q. q;
  items-empty = refl;
  items-push = λ q f. Perm.rfl;
  size-length = λ q. refl;
  top-none = list_top-none;
  top-perm = list_top-perm;
  top-least = list_top-least;
}
