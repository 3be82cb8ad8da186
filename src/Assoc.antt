-- ===== src/Assoc.antt =====
-- std::unordered_map with a number as its key, as an association list. The standard leaves the order
-- of iteration open; here it is the order of insertion.
use sketch_sync.Prelude.{
  ℕ, ◌≡◌, refl, Option, none, some, List, [], ◌∷◌, ◌++◌, ◌==◌, if◌then◌else◌, arith, inl, inr,
  Option-cases,
}

abbrev pub Assoc {ℓ} : Type ℓ → Type ℓ
Assoc V = List (ℕ × V)

module _ {ℓ} {V : Type ℓ} where
  -- find
  unfoldable pub lookup : ℕ → Assoc V → Option V
  lookup k [] = none
  lookup k ((j, v) ∷ m) = if j == k then some v else lookup k m

  -- m[k] = v
  unfoldable pub assign : ℕ → V → Assoc V → Assoc V
  assign k v [] = (k, v) ∷ []
  assign k v ((j, w) ∷ m) = if j == k then (k, v) ∷ m else (j, w) ∷ assign k v m

  -- emplace and try_emplace keep what is there.
  unfoldable pub emplace : ℕ → V → Assoc V → Assoc V
  emplace k v [] = (k, v) ∷ []
  emplace k v ((j, w) ∷ m) = if j == k then (j, w) ∷ m else (j, w) ∷ emplace k v m

  unfoldable pub erase : ℕ → Assoc V → Assoc V
  erase k [] = []
  erase k ((j, w) ∷ m) = if j == k then erase k m else (j, w) ∷ erase k m

  abbrev pub keys : Assoc V → List ℕ
  keys [] = []
  keys ((j, w) ∷ m) = j ∷ keys m

  pub lookup-assign :
      (k j : ℕ) (v : V) (m : Assoc V)
      → lookup j (assign k v m) ≡ (if k == j then some v else lookup j m)
  unfolding lookup assign
  lookup-assign k j v [] = refl
  lookup-assign k j v ((i, w) ∷ m) = ground (arith, lookup-assign k j v m)

  pub lookup-erase :
      (k j : ℕ) (m : Assoc V) → lookup j (erase k m) ≡ (if k == j then none else lookup j m)
  unfolding lookup erase
  lookup-erase k j [] = ground arith
  lookup-erase k j ((i, w) ∷ m) = ground (arith, lookup-erase k j m)

  pub emplace-new :
      (k : ℕ) (v : V) (m : Assoc V) → lookup k m ≡ none → emplace k v m ≡ m ++ (k, v) ∷ []
  unfolding lookup emplace
  emplace-new k v [] e = refl
  emplace-new k v ((j, w) ∷ m) e = ground (arith, emplace-new k v m)

  emplace-old : (k : ℕ) (v w : V) (m : Assoc V) → lookup k m ≡ some w → emplace k v m ≡ m
  unfolding lookup emplace
  emplace-old k v w [] e = absurd (cc e)
  emplace-old k v w ((j, u) ∷ m) e = ground (arith, emplace-old k v w m)

  -- emplace puts a new key at the end.
  pub emplace_cases :
      (k : ℕ) (v : V) (m : Assoc V)
      → emplace k v m ≡ (elim (lookup k m) [ none ↦ m ++ (k, v) ∷ [] | some w ↦ m ])
  emplace_cases k v m = elim (Option-cases (lookup k m)) [
    | inl e ↦ rw e (emplace-new k v m e)
    | inr (w, e) ↦ rw e (emplace-old k v w m e)
  ]

  -- A key that is put in and taken out again.
  pub erase-emplace : (k : ℕ) (v : V) (m : Assoc V) → erase k (emplace k v m) ≡ erase k m
  unfolding erase emplace
  erase-emplace k v [] = ground arith
  erase-emplace k v ((j, w) ∷ m) = ground (arith, erase-emplace k v m)

  pub lookup-emplace :
      (k j : ℕ) (v : V) (m : Assoc V)
      → lookup k m ≡ none
      → lookup j (emplace k v m) ≡ (if k == j then some v else lookup j m)
  unfolding lookup emplace
  lookup-emplace k j v [] e = refl
  lookup-emplace k j v ((i, w) ∷ m) e = ground (arith, lookup-emplace k j v m)
