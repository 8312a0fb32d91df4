-- ===== src/Pool/Weights.antt =====
-- cmd/cpu-pool-policy/pool/pool.go: sums over the containers of a pool set, and how an entry that
-- is put or deleted changes them.
use cpu_policy_plugins_for_k.Prelude.{
  ℕ, ◌+◌, ◌≡◌, refl, false, none, some, [], ◌∷◌, String, string_eq, ◌==◌, arith, elem, Distinct,
  elem-count, Bool-cases, inl, inr,
}
use cpu_policy_plugins_for_k.Prelude.GoMap.{GoMap, get, put, delete, keys}

module _ {V : Type 0} where
  -- The sum of a weight over the values of a map.
  abbrev pub weigh : (V → ℕ) → GoMap String V → ℕ
  weigh w [] = 0
  weigh w ((k, v) ∷ m) = w v + weigh w m

  pub weigh-put :
      (w : V → ℕ) (id : String) (v : V) (m : GoMap String V)
      → get id m ≡ none
      → weigh w (put id v m) ≡ weigh w m + w v
  unfolding put get
  weigh-put w id v [] e = omega arith
  weigh-put w id v ((k, u) ∷ m) e = elim (Bool-cases (k == id)) [
    | inl same ↦ absurd (ground arith)
    | inr other ↦ rw (other, put) (omega (arith, weigh-put w id v m (ground arith)))
  ]

  weigh-delete_absent :
      (w : V → ℕ) (id : String) (m : GoMap String V)
      → elem id (keys m) ≡ false
      → weigh w (delete id m) ≡ weigh w m
  unfolding delete
  weigh-delete_absent w id [] e = refl
  weigh-delete_absent w id ((k, u) ∷ m) e = ground (arith, weigh-delete_absent w id m)

  pub weigh-delete :
      (w : V → ℕ) (id : String) (v : V) (m : GoMap String V)
      → Distinct (keys m)
      → get id m ≡ some v
      → weigh w (delete id m) + w v ≡ weigh w m
  unfolding delete get
  weigh-delete w id v [] d e = absurd (ground arith)
  weigh-delete w id v ((k, u) ∷ m) d e = elim (Bool-cases (k == id)) [
    | inl same ↦
        rw (same, delete) (ground (arith, weigh-delete_absent w id m, elem-count id (keys m), d id))
    | inr other ↦
        rw (other, delete)
          (omega (arith, weigh-delete w id v m (λ a. ground (arith, d a)) (ground arith)))
  ]
