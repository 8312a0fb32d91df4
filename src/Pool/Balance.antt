-- ===== src/Pool/Balance.antt =====
-- cmd/cpu-pool-policy/pool/pool.go: the books of a pool set. The CPUs that a pool has given away
-- and the CPU that it counts as used are exactly what its containers hold.
use cpu_policy_plugins_for_k.Prelude.{
  ℕ, ◌+◌, ◌-◌, ◌%◌, ◌≡◌, true, false, ◌&&◌, not, ◌||◌, Option, none, some, String, string_eq, ◌==◌,
  if◌then◌else◌, arith, Distinct, elem-count, Bool-cases, inl, inr, sym, ◌∙◌, ap, ==-refl,
}
use cpu_policy_plugins_for_k.Prelude.GoMap.{
  GoMap, get, put, delete, keys, get-put, count-keys-put, count-keys-delete,
}
use cpu_policy_plugins_for_k.Prelude.Int.{ℤ, bits64, bits64-lt, two_64}
use cpu_policy_plugins_for_k.Cpuset.{Cpusets, Disjoint}
use cpu_policy_plugins_for_k.Pool.State.{Container, Pool}
use cpu_policy_plugins_for_k.Pool.Weights.{weigh, weigh-put, weigh-delete}

module _ ⦃c : Cpusets⦄ where
  open c use {CPUSet, contains, is_empty}

  -- Whether a container is of a pool and has a CPU to itself, as a number.
  abbrev pub holds : String → ℤ → Container → ℕ
  holds name x box = if box.pool == name && contains box.cpus x then 1 else 0

  -- What a container that shares a pool's CPUs has asked for, in 64 bits.
  abbrev pub asks : String → Container → ℕ
  asks name box = if box.pool == name && is_empty box.cpus then bits64 box.req else 0

  -- A pool whose books are right: no CPU is both shared and given away, a CPU is given away
  -- exactly if one container has it, and not to two, and the CPU used is the sum of the requests.
  pub record InBalance (name : String) (p : Pool) (boxes : GoMap String Container) : Type 0 where
    pub apart : Disjoint p.shared p.pinned
    pub held : (x : ℤ) → weigh (holds name x) boxes ≡ (if contains p.pinned x then 1 else 0)
    pub counted : bits64 p.used ≡ weigh (asks name) boxes % two_64

  pub record Balanced (pools : GoMap String Pool) (boxes : GoMap String Container) : Type 0 where
    pub distinct : Distinct (keys boxes)
    pub pool_balance : (name : String) (p : Pool) → get name pools ≡ some p → InBalance name p boxes

  module _ {pools : GoMap String Pool} {boxes : GoMap String Container}
      (b : Balanced pools boxes) where
    Distinct-put :
        (id : String) (box : Container) → get id boxes ≡ none → Distinct (keys (put id box boxes))
    Distinct-put id box fresh a =
        ground (arith, b.distinct a, count-keys-put a id box boxes, elem-count a (keys boxes))

    -- A container that is new, with CPUs that its pool shared and now gives away.
    pub Balanced-pin :
        (id name : String) (p p' : Pool) (box : Container)
        → get id boxes ≡ none
        → get name pools ≡ some p
        → box.pool ≡ name
        → ((x : ℤ) → contains box.cpus x ≡ true → contains p.shared x ≡ true)
        → ((x : ℤ) → contains p'.shared x ≡ contains p.shared x && not (contains box.cpus x))
        → ((x : ℤ) → contains p'.pinned x ≡ contains p.pinned x || contains box.cpus x)
        → bits64 p'.used ≡ (bits64 p.used + asks name box) % two_64
        → Balanced (put name p' pools) (put id box boxes)
    Balanced-pin id name p p' box fresh known mine inside left given used = record {
      distinct = Distinct-put id box fresh;
      pool_balance = λ other q at.
          let e = ap (λ (o : Option Pool). o) (sym (get-put other name p' pools) ∙ at) in
          let books = b.pool_balance name p known in
          elim (Bool-cases (name == other)) [
            | inl same ↦
                let q_is : p' ≡ q = ground (arith, e) in
                let other_is : name ≡ other = (string_eq.equal_iff name other).0 same in
                rw (sym q_is, sym other_is)
                  (record {
                    apart = λ x. ground (arith, books.apart x, left x, given x, inside x);
                    held = λ x. ground (
                      arith,
                      weigh-put (holds name x) id box boxes fresh,
                      books.held x,
                      books.apart x,
                      given x,
                      inside x,
                      mine,
                      ==-refl name,
                    );
                    counted =
                        ground
                          (arith, weigh-put (asks name) id box boxes fresh, books.counted, used);
                  })
            | inr differ ↦
                let kept = b.pool_balance other q (ground (arith, e)) in
                let foreign : (box.pool == other) ≡ false = rw mine differ in
                record {
                  apart = kept.apart;
                  held = λ x.
                      ground
                        (arith, weigh-put (holds other x) id box boxes fresh, kept.held x, foreign);
                  counted =
                      ground
                        (arith, weigh-put (asks other) id box boxes fresh, kept.counted, foreign);
                }
          ];
    }

    -- A container that goes: its CPUs are shared again, and its request is taken off.
    pub Balanced-drop :
        (id name : String) (p p' : Pool) (box : Container)
        → get id boxes ≡ some box
        → get name pools ≡ some p
        → box.pool ≡ name
        → ((x : ℤ) → contains p'.shared x ≡ contains p.shared x || contains box.cpus x)
        → ((x : ℤ) → contains p'.pinned x ≡ contains p.pinned x && not (contains box.cpus x))
        → bits64 p'.used ≡ (bits64 p.used + two_64 - asks name box) % two_64
        → Balanced (put name p' pools) (delete id boxes)
    Balanced-drop id name p p' box there known mine back taken used = record {
      distinct = λ a. ground (arith, b.distinct a, count-keys-delete a id boxes);
      pool_balance = λ other q at.
          let e = ap (λ (o : Option Pool). o) (sym (get-put other name p' pools) ∙ at) in
          let books = b.pool_balance name p known in
          elim (Bool-cases (name == other)) [
            | inl same ↦
                let q_is : p' ≡ q = ground (arith, e) in
                let other_is : name ≡ other = (string_eq.equal_iff name other).0 same in
                rw (sym q_is, sym other_is)
                  (record {
                    apart = λ x. ground (arith, books.apart x, back x, taken x);
                    held = λ x. ground (
                      arith,
                      weigh-delete (holds name x) id box boxes b.distinct there,
                      books.held x,
                      taken x,
                      mine,
                      ==-refl name,
                    );
                    counted = ground (
                      arith,
                      weigh-delete (asks name) id box boxes b.distinct there,
                      books.counted,
                      used,
                      bits64-lt box.req,
                    );
                  })
            | inr differ ↦
                let kept = b.pool_balance other q (ground (arith, e)) in
                let foreign : (box.pool == other) ≡ false = rw mine differ in
                record {
                  apart = kept.apart;
                  held = λ x. ground (
                    arith,
                    weigh-delete (holds other x) id box boxes b.distinct there,
                    kept.held x,
                    foreign,
                  );
                  counted = ground (
                    arith,
                    weigh-delete (asks other) id box boxes b.distinct there,
                    kept.counted,
                    foreign,
                  );
                }
          ];
    }

    -- A container of a pool that is not there.
    pub Balanced-forget :
        (id : String) (box : Container)
        → get id boxes ≡ some box
        → get box.pool pools ≡ none
        → Balanced pools (delete id boxes)
    Balanced-forget id box there unknown = record {
      distinct = λ a. ground (arith, b.distinct a, count-keys-delete a id boxes);
      pool_balance = λ other q at.
          let kept = b.pool_balance other q at in
          let foreign : (box.pool == other) ≡ false =
            ground (arith, string_eq.equal_iff box.pool other) in
          record {
            apart = kept.apart;
            held = λ x. ground (
              arith,
              weigh-delete (holds other x) id box boxes b.distinct there,
              kept.held x,
              foreign,
            );
            counted = ground (
              arith,
              weigh-delete (asks other) id box boxes b.distinct there,
              kept.counted,
              foreign,
            );
          };
    }
