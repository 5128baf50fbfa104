-- ===== src/Prelude/Maps.antt =====
-- `Map<string, V>`: an association list in insertion order. `set` on a key that is there keeps its
-- place, as JavaScript's does.
use mathlib.Core.Path.{subst, subst₂}
use omp_bundler.Prelude.{
  ◌≡◌, refl, sym, inl, inr, Bool-cases, false, List, [], ◌∷◌, Option, none, some, Text, same,
  same_iff, if◌then◌else◌, All, arith,
}

module _ {ℓ} {V : Type ℓ} where
  unfoldable pub get : Text → List (Text × V) → Option V
  get k [] = none
  get k ((j, v) ∷ m) = if same j k then some v else get k m

  unfoldable pub set : Text → V → List (Text × V) → List (Text × V)
  set k v [] = (k, v) ∷ []
  set k v ((j, w) ∷ m) = if same j k then (j, v) ∷ m else (j, w) ∷ set k v m

  unfoldable pub remove : Text → List (Text × V) → List (Text × V)
  remove k [] = []
  remove k ((j, v) ∷ m) = if same j k then m else (j, v) ∷ remove k m

  pub get-set :
      (k j : Text) (v : V) (m : List (Text × V))
      → get j (set k v m) ≡ (if same k j then some v else get j m)
  unfolding get set
  get-set k j v [] = refl
  get-set k j v ((i, w) ∷ m) =
      ground (arith, same_iff k j, same_iff i k, same_iff i j, get-set k j v m)

  -- A predicate of keys and values at every entry.
  abbrev pub Entries {κ} : (Text → V → Type κ) → List (Text × V) → Type κ
  Entries P m = All (λ e. P e.0 e.1) m

  pub get-Entries {κ} :
      (P : Text → V → Type κ) (k : Text) (m : List (Text × V)) (v : V)
      → Entries P m
      → get k m ≡ some v
      → P k v
  unfolding get
  get-Entries P k [] v h e = cc
  get-Entries P k ((j, w) ∷ m) v h e = elim (Bool-cases (same j k)) [
    | inl hit ↦ subst₂ P ((same_iff j k).0 hit) (ground arith) h.0
    | inr miss ↦ get-Entries P k m v h.1 (ground arith)
  ]

  pub set-Entries {κ} :
      (P : Text → V → Type κ) (k : Text) (v : V) (m : List (Text × V))
      → P k v
      → Entries P m
      → Entries P (set k v m)
  unfolding set
  set-Entries P k v [] p h = (p, tt)
  set-Entries P k v ((j, w) ∷ m) p h = elim (Bool-cases (same j k)) [
    | inl hit ↦ rw hit (subst (λ i. P i v) (sym ((same_iff j k).0 hit)) p, h.1)
    | inr miss ↦ rw miss (h.0, set-Entries P k v m p h.1)
  ]

  -- No key has two entries.
  abbrev pub Fresh : Text → List (Text × V) → Type 0
  Fresh k [] = Unit
  Fresh k ((j, v) ∷ m) = (same j k ≡ false) × Fresh k m

  abbrev pub Distinct : List (Text × V) → Type 0
  Distinct [] = Unit
  Distinct ((j, v) ∷ m) = Fresh j m × Distinct m

  Fresh-set :
      (i k : Text) (v : V) (m : List (Text × V))
      → same k i ≡ false
      → Fresh i m
      → Fresh i (set k v m)
  unfolding set
  Fresh-set i k v [] h f = (h, tt)
  Fresh-set i k v ((j, w) ∷ m) h f = elim (Bool-cases (same j k)) [
    | inl hit ↦ rw hit f
    | inr miss ↦ rw miss (f.0, Fresh-set i k v m h f.1)
  ]

  pub set-Distinct : (k : Text) (v : V) (m : List (Text × V)) → Distinct m → Distinct (set k v m)
  unfolding set
  set-Distinct k v [] d = (tt, tt)
  set-Distinct k v ((j, w) ∷ m) d = elim (Bool-cases (same j k)) [
    | inl hit ↦ rw hit d
    | inr miss ↦
        rw miss (
          Fresh-set j k v m (ground (arith, same_iff j k, same_iff k j)) d.0,
          set-Distinct k v m d.1,
        )
  ]

  pub get_of_Fresh : (k : Text) (m : List (Text × V)) → Fresh k m → get k m ≡ none
  unfolding get
  get_of_Fresh k [] f = refl
  get_of_Fresh k ((j, v) ∷ m) f = rw f.0 (get_of_Fresh k m f.1)

  Fresh-remove : (i k : Text) (m : List (Text × V)) → Fresh i m → Fresh i (remove k m)
  unfolding remove
  Fresh-remove i k [] f = tt
  Fresh-remove i k ((j, w) ∷ m) f = elim (Bool-cases (same j k)) [
    | inl hit ↦ rw hit f.1
    | inr miss ↦ rw miss (f.0, Fresh-remove i k m f.1)
  ]

  pub remove-Distinct : (k : Text) (m : List (Text × V)) → Distinct m → Distinct (remove k m)
  unfolding remove
  remove-Distinct k [] d = tt
  remove-Distinct k ((j, w) ∷ m) d = elim (Bool-cases (same j k)) [
    | inl hit ↦ rw hit d.1
    | inr miss ↦ rw miss (Fresh-remove j k m d.0, remove-Distinct k m d.1)
  ]

  pub get-remove : (k : Text) (m : List (Text × V)) → Distinct m → get k (remove k m) ≡ none
  unfolding get remove
  get-remove k [] d = refl
  get-remove k ((j, w) ∷ m) d = elim (Bool-cases (same j k)) [
    | inl hit ↦
        let key : j ≡ k = (same_iff j k).0 hit in
        rw hit (get_of_Fresh k m (subst (λ i. Fresh i m) key d.0))
    | inr miss ↦ rw miss (rw miss (get-remove k m d.1))
  ]
