-- ===== src/Kube.antt =====
-- What the programs read of Kubernetes (packages under vendor/): quantities behind an interface,
-- and the fields of pods and containers that the sources look at.
use cpu_policy_plugins_for_k.Prelude.{ℕ, ◌*◌, ◌≡◌, Option, List, String}
use cpu_policy_plugins_for_k.Prelude.GoMap.{GoMap}
use cpu_policy_plugins_for_k.Prelude.Int.{ℤ, pos}
pub mod Milli

-- `resource.Quantity`: an exact number, read in units or in thousandths.
pub record Quantities : Type 1 where
  pub Quantity : Type 0
  pub zero_quantity : Quantity
  pub value : Quantity → ℤ
  pub milli_value : Quantity → ℤ
  pub new_quantity : ℤ → Quantity
  pub new_milli_quantity : ℤ → Quantity
  pub print : Quantity → String
  pub value-zero : value zero_quantity ≡ pos 0
  pub milli_value-zero : milli_value zero_quantity ≡ pos 0
  pub value-new : (n : ℤ) → value (new_quantity n) ≡ n
  pub milli_value-new : (n : ℕ) → milli_value (new_quantity (pos n)) ≡ pos (1000 * n)
  pub milli_value-new_milli : (n : ℤ) → milli_value (new_milli_quantity n) ≡ n

-- `v1.ResourceCPU`, `metav1.NamespaceSystem`
abbrev pub resource_cpu : String
resource_cpu = "cpu"

abbrev pub namespace_system : String
namespace_system = "kube-system"

module _ ⦃q : Quantities⦄ where
  open q use {Quantity}

  -- `v1.ResourceList`
  abbrev pub ResourceList : Type 0
  ResourceList = GoMap String Quantity

  -- A container by its name and its resources; none is a nil map.
  pub record KubeContainer : Type 0 where
    pub name : String
    pub requests : Option ResourceList
    pub limits : Option ResourceList

  pub record KubePod : Type 0 where
    pub namespace : String
    pub labels : GoMap String String
    pub init_containers : List KubeContainer
    pub containers : List KubeContainer
