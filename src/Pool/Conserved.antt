-- ===== src/Pool/Conserved.antt =====
-- cmd/cpu-pool-policy/pool/pool.go: requests and releases move CPUs between the shared and the
-- exclusive CPUs of a pool, and between no two pools.
use cpu_policy_plugins_for_k.Prelude.{
  ℕ, ◌+◌, ◌≤◌, ◌≡◌, refl, [], ◌∷◌, ◌||◌, not, ◌&&◌, some, String, string_eq, ◌==◌, arith, sym, ◌∙◌,
  inl, inr, Bool-cases,
}
use cpu_policy_plugins_for_k.Prelude.GoMap.{GoMap, get, put, get-put}
use cpu_policy_plugins_for_k.Prelude.Int.{ℤ}
use cpu_policy_plugins_for_k.Cpuset.{Cpusets, Subset, size-union, size_ext}
use cpu_policy_plugins_for_k.Pool.State.{Container, Pool, PoolSet}
use cpu_policy_plugins_for_k.Pool.Release.{give_back}
use cpu_policy_plugins_for_k.Pool.Weights.{weigh}
use cpu_policy_plugins_for_k.Pool.Balance.{holds, InBalance}
use cpu_policy_plugins_for_k.Pool.Books.{IsBalanced}

module _ ⦃c : Cpusets⦄ where
  open c use {
    CPUSet, contains, is_empty, size, union, difference, contains-union, contains-difference,
  }

  -- Two pools have the same CPUs, shared or given away.
  abbrev pub SameCpus : Pool → Pool → Type 0
  SameCpus p q =
      (x : ℤ)
      → (contains q.shared x || contains q.pinned x) ≡ (contains p.shared x || contains p.pinned x)

  -- The same pools by name, each with the same CPUs.
  pub record KeepsPools (before after : GoMap String Pool) : Type 0 where
    pub kept :
        (name : String) (p : Pool)
        → get name before ≡ some p
        → (q : Pool) × (get name after ≡ some q) × SameCpus p q
    pub none_new :
        (name : String) (q : Pool)
        → get name after ≡ some q
        → (p : Pool) × (get name before ≡ some p) × SameCpus p q

  pub KeepsPools-refl : (pools : GoMap String Pool) → KeepsPools pools pools
  KeepsPools-refl pools = record {
    kept = λ name p at. (p, at, λ x. refl);
    none_new = λ name p at. (p, at, λ x. refl);
  }

  pub KeepsPools-trans :
      (u v w : GoMap String Pool) → KeepsPools u v → KeepsPools v w → KeepsPools u w
  KeepsPools-trans u v w f k = record {
    kept = λ name p at.
        let (q, there, same) = f.kept name p at in
        let (r, here, equal) = k.kept name q there in (r, here, λ x. equal x ∙ same x);
    none_new = λ name r at.
        let (q, there, same) = k.none_new name r at in
        let (p, here, equal) = f.none_new name q there in (p, here, λ x. same x ∙ equal x);
  }

  -- A pool is changed in place.
  pub KeepsPools-put :
      (name : String) (p p' : Pool) (pools : GoMap String Pool)
      → get name pools ≡ some p
      → SameCpus p p'
      → KeepsPools pools (put name p' pools)
  KeepsPools-put name p p' pools known same = record {
    kept = λ other q at. elim (Bool-cases (name == other)) [
      | inl e ↦
          let is_other = (string_eq.equal_iff name other).0 e in
          let q_is : p ≡ q = ground (arith, known, at, is_other) in
          (p', get-put other name p' pools ∙ rw e refl, rw (sym q_is) same)
      | inr e ↦ (q, get-put other name p' pools ∙ rw e at, λ x. refl)
    ];
    none_new = λ other q at. elim (Bool-cases (name == other)) [
      | inl e ↦
          let is_other = (string_eq.equal_iff name other).0 e in
          let q_is : p' ≡ q = ground (arith, at, e, get-put other name p' pools) in
          (p, rw (sym is_other) known, rw (sym q_is) same)
      | inr e ↦ (q, ground (arith, at, e, get-put other name p' pools), λ x. refl)
    ];
  }

  -- CPUs that are taken from those shared and added to those given away.
  pub SameCpus-pin :
      (p : Pool) (rest result : CPUSet)
      → Subset result p.shared
      → ((x : ℤ) → contains rest x ≡ contains p.shared x && not (contains result x))
      → SameCpus p (record p { shared = rest; pinned = union p.pinned result })
  SameCpus-pin p rest result inside left x =
      ground (arith, left x, inside x, contains-union p.pinned result x)

  pub weigh-get :
      (w : Container → ℕ) (id : String) (box : Container) (boxes : GoMap String Container)
      → get id boxes ≡ some box
      → w box ≤ weigh w boxes
  unfolding get
  weigh-get w id box [] at = absurd (ground arith)
  weigh-get w id box ((k, first) ∷ rest) at = elim (Bool-cases (k == id)) [
    | inl same ↦ ground (arith, same, at)
    | inr other ↦ let ih = weigh-get w id box rest (ground (arith, other, at)) in omega (arith, ih)
  ]

  -- The CPUs of a container are among those that its pool has given away.
  pub box-pinned :
      (id : String) (box : Container) (p : Pool) (ps : PoolSet)
      → get id ps.containers ≡ some box
      → get box.pool ps.pools ≡ some p
      → IsBalanced ps
      → Subset box.cpus p.pinned
  box-pinned id box p ps there known b x has =
      let books = b.pool_balance box.pool p known in
      ground (
        arith,
        books.held x,
        weigh-get (holds box.pool x) id box ps.containers there,
        has,
        string_eq.equal_iff box.pool box.pool,
      )

  pub SameCpus-give_back :
      (box : Container) (p : Pool) → Subset box.cpus p.pinned → SameCpus p (give_back box p)
  unfolding give_back
  SameCpus-give_back box p inside x = elim (Bool-cases (is_empty box.cpus)) [
    | inl e ↦ rw (e, give_back) refl
    | inr e ↦
        rw (e, give_back)
          (ground (
            arith,
            inside x,
            contains-union p.shared box.cpus x,
            contains-difference p.pinned box.cpus x,
          ))
  ]

  -- A pool with its books in order counts each of its CPUs once.
  pub size-SameCpus :
      (name : String) (p q : Pool) (boxes others : GoMap String Container)
      → InBalance name p boxes
      → InBalance name q others
      → SameCpus p q
      → size q.shared + size q.pinned ≡ size p.shared + size p.pinned
  size-SameCpus name p q boxes others b d same = ground (
    arith,
    size-union p.shared p.pinned b.apart,
    size-union q.shared q.pinned d.apart,
    size_ext (union q.shared q.pinned) (union p.shared p.pinned) (λ x.
        contains-union q.shared q.pinned x ∙ same x ∙ sym (contains-union p.shared p.pinned x)),
  )
