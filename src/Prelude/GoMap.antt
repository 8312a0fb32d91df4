-- ===== src/Prelude/GoMap.antt =====
-- Go's `map[K]V` as an association list whose order is that of an iteration. A key stands once in
-- a map that `put` builds; a missing key reads as `none`, which callers turn into what Go does.
use mathlib.Core.Path.{◌≡◌, refl}
use mathlib.Core.Logic.{◌⊎◌, inl, inr}
use mathlib.Core.Bool.{false}
use mathlib.Core.List.{List, [], ◌∷◌}
use mathlib.Core.Option.{Option, none, some}
use native.Mathlib.Omega.{arith}
use cpu_policy_plugins_for_k.Prelude.Tests.{Eq, ◌==◌, if◌then◌else◌, Bool-cases}
use cpu_policy_plugins_for_k.Prelude.Lists.{elem, count}

abbrev pub GoMap {ℓ κ} : Type ℓ → Type κ → Type (ℓ ⊔ κ)
GoMap K V = List (K × V)

abbrev pub keys {ℓ κ} : {K : Type ℓ} {V : Type κ} → GoMap K V → List K
keys [] = []
keys ((k, v) ∷ m) = k ∷ keys m

abbrev pub values {ℓ κ} : {K : Type ℓ} {V : Type κ} → GoMap K V → List V
values [] = []
values ((k, v) ∷ m) = v ∷ values m

module _ {ℓ κ} {K : Type ℓ} {V : Type κ} ⦃e : Eq K⦄ where
  unfoldable pub get : K → GoMap K V → Option V
  get k [] = none
  get k ((j, v) ∷ m) = if j == k then some v else get k m

  unfoldable pub put : K → V → GoMap K V → GoMap K V
  put k v [] = (k, v) ∷ []
  put k v ((j, w) ∷ m) = if j == k then (k, v) ∷ m else (j, w) ∷ put k v m

  unfoldable pub delete : K → GoMap K V → GoMap K V
  delete k [] = []
  delete k ((j, w) ∷ m) = let rest = delete k m in if j == k then rest else (j, w) ∷ rest

  pub get-put :
      (j k : K) (v : V) (m : GoMap K V) → get j (put k v m) ≡ (if k == j then some v else get j m)
  unfolding get put
  get-put j k v [] = refl
  get-put j k v ((i, w) ∷ m) =
      ground (arith, e.equal_iff k j, e.equal_iff i k, e.equal_iff i j, get-put j k v m)

  pub get-delete :
      (j k : K) (m : GoMap K V) → get j (delete k m) ≡ (if k == j then none else get j m)
  unfolding get delete
  get-delete j k [] = ground arith
  get-delete j k ((i, w) ∷ m) =
      ground (arith, e.equal_iff k j, e.equal_iff i k, e.equal_iff i j, get-delete j k m)

  pub get-none_of_absent : (k : K) (m : GoMap K V) → elem k (keys m) ≡ false → get k m ≡ none
  unfolding get
  get-none_of_absent k [] h = refl
  get-none_of_absent k ((i, w) ∷ m) h = ground (arith, get-none_of_absent k m)

  pub absent_of_get-none : (k : K) (m : GoMap K V) → get k m ≡ none → elem k (keys m) ≡ false
  unfolding get
  absent_of_get-none k [] h = refl
  absent_of_get-none k ((i, w) ∷ m) h = ground (arith, absent_of_get-none k m)

  pub count-keys-put :
      (a k : K) (v : V) (m : GoMap K V)
      → count a (keys (put k v m))
        ≡ (if k == a then (if elem a (keys m) then count a (keys m) else 1) else count a (keys m))
  unfolding put
  count-keys-put a k v [] = ground arith
  count-keys-put a k v ((i, w) ∷ m) =
      ground (arith, e.equal_iff k a, e.equal_iff i k, e.equal_iff i a, count-keys-put a k v m)

  pub count-keys-delete :
      (a k : K) (m : GoMap K V)
      → count a (keys (delete k m)) ≡ (if k == a then 0 else count a (keys m))
  unfolding delete
  count-keys-delete a k [] = ground arith
  count-keys-delete a k ((i, w) ∷ m) =
      ground (arith, e.equal_iff k a, e.equal_iff i k, e.equal_iff i a, count-keys-delete a k m)

  -- To store again what is there changes nothing.
  pub put-get : (k : K) (v : V) (m : GoMap K V) → get k m ≡ some v → put k v m ≡ m
  unfolding get put
  put-get k v [] h = absurd (ground arith)
  put-get k v ((i, w) ∷ m) h = ground (arith, e.equal_iff i k, put-get k v m)

  -- What is read after a write: the value written, or one that was there.
  pub get-put-cases :
      (j k : K) (v w : V) (m : GoMap K V)
      → get j (put k v m) ≡ some w
      → ((k ≡ j) × (v ≡ w)) ⊎ (((k == j) ≡ false) × (get j m ≡ some w))
  get-put-cases j k v w m h = elim (Bool-cases (k == j)) [
    | inl same ↦ inl ((e.equal_iff k j).0 same, ground (arith, get-put j k v m))
    | inr other ↦ inr (other, ground (arith, get-put j k v m))
  ]
