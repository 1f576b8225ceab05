-- ===== src/Prelude/Maps.antt =====
-- `std::unordered_map` and `std::unordered_set` with numbers as keys, as lists. `find`, `insert` and
-- `erase` are `find`, `m[k] = v` and `erase(k)`.
use optrace.Prelude.{
  ℕ, ◌≡◌, refl, Bool, true, false, ◌||◌, Option, none, some, List, [], ◌∷◌, ◌==◌, if◌then◌else◌,
  arith,
}

module _ {ℓ} {V : Type ℓ} where
  abbrev pub find : ℕ → List (ℕ × V) → Option V
  find k [] = none
  find k ((j, v) ∷ m) = if j == k then some v else find k m

  abbrev pub insert : ℕ → V → List (ℕ × V) → List (ℕ × V)
  insert k v [] = (k, v) ∷ []
  insert k v ((j, w) ∷ m) = if j == k then (k, v) ∷ m else (j, w) ∷ insert k v m

  abbrev pub erase : ℕ → List (ℕ × V) → List (ℕ × V)
  erase k [] = []
  erase k ((j, v) ∷ m) = if j == k then erase k m else (j, v) ∷ erase k m

  pub find-insert :
      (k j : ℕ) (v : V) (m : List (ℕ × V))
      → find j (insert k v m) ≡ (if k == j then some v else find j m)
  find-insert k j v [] = refl
  find-insert k j v ((i, w) ∷ m) = ground (arith, find-insert k j v m)

  pub find-erase :
      (k j : ℕ) (m : List (ℕ × V)) → find j (erase k m) ≡ (if k == j then none else find j m)
  find-erase k j [] = ground arith
  find-erase k j ((i, w) ∷ m) = ground (arith, find-erase k j m)

  abbrev pub has_key : ℕ → List (ℕ × V) → Bool
  has_key k m = elim (find k m) [ none ↦ false | some v ↦ true ]

abbrev pub member : ℕ → List ℕ → Bool
member k [] = false
member k (j ∷ s) = (j == k) || member k s

abbrev pub emplace : ℕ → List ℕ → List ℕ
emplace k s = if member k s then s else k ∷ s

abbrev pub remove : ℕ → List ℕ → List ℕ
remove k [] = []
remove k (j ∷ s) = if j == k then remove k s else j ∷ remove k s

pub member-emplace : (k j : ℕ) (s : List ℕ) → member j (emplace k s) ≡ ((k == j) || member j s)
member-emplace k j s = ground (arith, member_same k j s)
  where
    member_same : (k j : ℕ) (s : List ℕ) → (k == j) ≡ true → member k s ≡ member j s
    member_same k j [] h = refl
    member_same k j (i ∷ s) h = ground (arith, member_same k j s h)

pub member-remove :
    (k j : ℕ) (s : List ℕ) → member j (remove k s) ≡ (if k == j then false else member j s)
member-remove k j [] = ground arith
member-remove k j (i ∷ s) = ground (arith, member-remove k j s)
