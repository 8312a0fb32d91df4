-- ===== src/Policy/Store.antt =====
-- The state that the CPUManager stub keeps for a policy (package stub under vendor/): the setters
-- that the plugin calls, and what the getters show after them. A CPU set that equals the one there
-- is not replaced.
use cpu_policy_plugins_for_k.Prelude.{◌≡◌, Option, none, some, false, String, string_eq, ◌==◌}
use cpu_policy_plugins_for_k.Cpuset.{Cpusets, SameMembers}
use cpu_policy_plugins_for_k.Kube.{Quantities}
use cpu_policy_plugins_for_k.Pool.Checkpoint.{Json}

module _ ⦃c : Cpusets⦄ ⦃q : Quantities⦄ ⦃j : Json⦄ where
  open c use {CPUSet}
  open q use {Quantity}
  open j use {Document}

  pub record Stub : Type 1 where
    pub State : Type 0
    pub get_cpuset : String → State → Option CPUSet
    pub get_default_cpuset : State → CPUSet
    pub get_policy_entry : String → State → Option Document
    pub set_cpuset : String → CPUSet → State → State
    pub set_default_cpuset : CPUSet → State → State
    pub set_policy_entry : String → Document → State → State
    pub update_resource : String → Quantity → State → State
    -- `Delete(containerID)`
    pub forget : String → State → State
    pub get_cpuset-set :
        (k : String) (v : CPUSet) (s : State)
        → (w : CPUSet) × (get_cpuset k (set_cpuset k v s) ≡ some w) × SameMembers w v
    pub get_cpuset-set_other :
        (k i : String) (v : CPUSet) (s : State)
        → (k == i) ≡ false
        → get_cpuset i (set_cpuset k v s) ≡ get_cpuset i s
    pub get_cpuset-entry :
        (i k : String) (d : Document) (s : State)
        → get_cpuset i (set_policy_entry k d s) ≡ get_cpuset i s
    pub get_cpuset-resource :
        (i k : String) (n : Quantity) (s : State)
        → get_cpuset i (update_resource k n s) ≡ get_cpuset i s
    pub get_cpuset-default :
        (i : String) (v : CPUSet) (s : State)
        → get_cpuset i (set_default_cpuset v s) ≡ get_cpuset i s
    pub get_cpuset-forget : (k : String) (s : State) → get_cpuset k (forget k s) ≡ none
    pub get_default-set : (v : CPUSet) (s : State) → get_default_cpuset (set_default_cpuset v s) ≡ v
    pub entry-set :
        (k : String) (d : Document) (s : State)
        → get_policy_entry k (set_policy_entry k d s) ≡ some d
    pub entry-cpuset :
        (i k : String) (v : CPUSet) (s : State)
        → get_policy_entry i (set_cpuset k v s) ≡ get_policy_entry i s
    pub entry-resource :
        (i k : String) (n : Quantity) (s : State)
        → get_policy_entry i (update_resource k n s) ≡ get_policy_entry i s
    pub entry-default :
        (i : String) (v : CPUSet) (s : State)
        → get_policy_entry i (set_default_cpuset v s) ≡ get_policy_entry i s
