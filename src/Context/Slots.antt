-- ===== src/Context/Slots.antt =====
-- Vectors of descriptors after an assignment to one of their slots.
use optrace.Prelude.{
  ℕ, zero, suc, ◌+◌, ◌-◌, ◌<◌, ◌≤◌, ◌≡◌, refl, ap, ◌⊎◌, inl, inr, false, Option, none, some, List,
  [], ◌∷◌, ◌++◌, length, take, replicate, set, leb, ◌==◌, arith, Bool-cases, length-append,
}
use optrace.Types.{ProcState}
use optrace.Context.Objects.{fds_of, slot, resize, update_fds, modify_at}
use optrace.Context.Descriptors.{grow}

pub length-modify_at {ℓ} :
    {A : Type ℓ} (xs : List A) (i : ℕ) (f : A → A) → length (modify_at xs i f) ≡ length xs
length-modify_at [] i f = refl
length-modify_at (x ∷ xs) zero f = refl
length-modify_at (x ∷ xs) (suc i) f = ap suc (length-modify_at xs i f)

-- Another process keeps its vector.
pub fds_of-modify_other :
    (procs : List ProcState) (a b : ℕ) (f : List (Option ℕ) → List (Option ℕ))
    → (a == b) ≡ false
    → fds_of b (modify_at procs a (update_fds f)) ≡ fds_of b procs
fds_of-modify_other [] a b f h = refl
fds_of-modify_other (p ∷ ps) zero zero f h = absurd (ground arith)
fds_of-modify_other (p ∷ ps) zero (suc b) f h = refl
fds_of-modify_other (p ∷ ps) (suc a) zero f h = refl
fds_of-modify_other (p ∷ ps) (suc a) (suc b) f h = fds_of-modify_other ps a b f (ground arith)

pub fds_of-modify_self :
    (procs : List ProcState) (a : ℕ) (f : List (Option ℕ) → List (Option ℕ))
    → a < length procs
    → fds_of a (modify_at procs a (update_fds f)) ≡ f (fds_of a procs)
fds_of-modify_self [] a f h = elim h [ ]
fds_of-modify_self (p ∷ ps) zero f h = refl
fds_of-modify_self (p ∷ ps) (suc a) f h = fds_of-modify_self ps a f (omega arith)

slot-replicate : (n j : ℕ) → slot (replicate n none) j ≡ none
slot-replicate zero j = refl
slot-replicate (suc n) zero = refl
slot-replicate (suc n) (suc j) = slot-replicate n j

slot-longer :
    (fds : List (Option ℕ)) (m n j : ℕ)
    → length fds ≤ m
    → slot (take m fds ++ replicate n none) j ≡ slot fds j
slot-longer [] zero n j h = slot-replicate n j
slot-longer [] (suc m) n j h = slot-replicate n j
slot-longer (p ∷ fds) zero n j h = absurd (omega arith)
slot-longer (p ∷ fds) (suc m) n zero h = refl
slot-longer (p ∷ fds) (suc m) n (suc j) h = slot-longer fds m n j (omega arith)

pub slot-resize :
    (fds : List (Option ℕ)) (n j q : ℕ) → slot (resize fds n) j ≡ some q → slot fds j ≡ some q
unfolding resize
slot-resize fds n j q e = shorter fds n (n - length fds) j q e
  where
    shorter :
        (fds : List (Option ℕ)) (n k j q : ℕ)
        → slot (take n fds ++ replicate k none) j ≡ some q
        → slot fds j ≡ some q
    shorter fds zero k j q e = absurd (ground (arith, slot-replicate k j))
    shorter [] (suc n) k j q e = absurd (ground (arith, slot-replicate k j))
    shorter (p ∷ fds) (suc n) k zero q e = e
    shorter (p ∷ fds) (suc n) k (suc j) q e = shorter fds n k j q e

-- Growing a vector adds null pointers only.
pub slot-grow : (fd : ℕ) (fds : List (Option ℕ)) (j : ℕ) → slot (grow fd fds) j ≡ slot fds j
unfolding resize
slot-grow fd fds j = elim (Bool-cases (leb (length fds) fd)) [
  | inl short ↦ rw short (slot-longer fds (fd + 1) (fd + 1 - length fds) j (ground arith))
  | inr enough ↦ rw enough refl
]

length-replicate {ℓ} : {A : Type ℓ} (n : ℕ) (x : A) → length (replicate n x) ≡ n
length-replicate zero x = refl
length-replicate (suc n) x = ap suc (length-replicate n x)

length-take_all {ℓ} :
    {A : Type ℓ} (xs : List A) (n : ℕ) → length xs ≤ n → length (take n xs) ≡ length xs
length-take_all [] zero h = refl
length-take_all [] (suc n) h = refl
length-take_all (x ∷ xs) zero h = absurd (omega arith)
length-take_all (x ∷ xs) (suc n) h = ap suc (length-take_all xs n (omega arith))

-- After growing, the slot is inside the vector.
pub grow-enough : (fd : ℕ) (fds : List (Option ℕ)) → fd < length (grow fd fds)
unfolding resize
grow-enough fd fds = elim (Bool-cases (leb (length fds) fd)) [
  | inl short ↦ rw short (
      omega (
        arith,
        length-append (take (fd + 1) fds) (replicate (fd + 1 - length fds) none),
        length-take_all fds (fd + 1) (ground arith),
        length-replicate {A = Option ℕ} (fd + 1 - length fds) none,
      ))
  | inr enough ↦ rw enough (ground arith)
]

pub slot-set_self :
    (fds : List (Option ℕ)) (fd r : ℕ) → fd < length fds → slot (set fds fd (some r)) fd ≡ some r
slot-set_self [] fd r h = elim h [ ]
slot-set_self (p ∷ fds) zero r h = refl
slot-set_self (p ∷ fds) (suc fd) r h = slot-set_self fds fd r (omega arith)

-- What is found after an assignment is the new pointer, or was there before.
pub slot_of_set :
    (fds : List (Option ℕ)) (fd r j q : ℕ)
    → slot (set fds fd (some r)) j ≡ some q
    → (slot fds j ≡ some q) ⊎ (r ≡ q)
slot_of_set [] fd r j q h = absurd (ground arith)
slot_of_set (p ∷ fds) zero r zero q h = inr (ground arith)
slot_of_set (p ∷ fds) zero r (suc j) q h = inl h
slot_of_set (p ∷ fds) (suc fd) r zero q h = inl h
slot_of_set (p ∷ fds) (suc fd) r (suc j) q h = slot_of_set fds fd r j q h
