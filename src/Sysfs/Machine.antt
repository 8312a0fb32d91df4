-- ===== src/Sysfs/Machine.antt =====
-- pkg/sysfs/system.go: the records of a discovered machine and what reads them.
-- The cache records are left out: `Discover` clears the bit that would fill them.
use cpu_policy_plugins_for_k.Prelude.{ℕ, zero, suc, Bool, List, [], ◌∷◌, Option, none, some, String}
use cpu_policy_plugins_for_k.Prelude.Int.{ℤ, pos, negsuc, int_eq}
use cpu_policy_plugins_for_k.Prelude.GoMap.{GoMap, get, keys}
use cpu_policy_plugins_for_k.Cpuset.{Cpusets}
use cpu_policy_plugins_for_k.Runtime.{GoRuntime}
use cpu_policy_plugins_for_k.Sysfs.Sets.{IdSet, cpuset_of, new_id_set}

-- Frequencies in kHz; the table of discrete frequencies is never filled.
pub record CpuFreq : Type 0 where
  pub min : ℕ
  pub max : ℕ

pub record Cpu : Type 0 where
  pub path : String
  pub id : ℤ
  pub pkg : ℤ
  pub node : ℤ
  pub threads : IdSet
  pub freq : CpuFreq
  pub online : Bool

pub record Node : Type 0 where
  pub path : String
  pub id : ℤ
  pub cpus : IdSet
  pub distance : List ℤ
  pub memory : IdSet

pub record Package : Type 0 where
  pub id : ℤ
  pub cpus : IdSet
  pub nodes : IdSet

-- The nil maps of a system that is not discovered yet are `none`.
pub record System : Type 0 where
  pub flags : ℕ
  pub path : String
  pub packages : Option (GoMap ℤ Package)
  pub nodes : Option (GoMap ℤ Node)
  pub cpus : Option (GoMap ℤ Cpu)
  pub offline : IdSet

-- A nil map reads as an empty one.
abbrev pub entries : {V : Type 0} → Option (GoMap ℤ V) → GoMap ℤ V
entries none = []
entries (some m) = m

unfoldable pub package_at : System → ℤ → Option Package
package_at sys id = get id (entries sys.packages)

unfoldable pub node_at : System → ℤ → Option Node
node_at sys id = get id (entries sys.nodes)

unfoldable pub cpu_at : System → ℤ → Option Cpu
cpu_at sys id = get id (entries sys.cpus)

module _ ⦃g : GoRuntime⦄ where
  open g use {range_ids}

  unfoldable pub package_ids : System → List ℤ
  package_ids sys = range_ids "PackageIds" (keys (entries sys.packages))

  unfoldable pub node_ids : System → List ℤ
  node_ids sys = range_ids "NodeIds" (keys (entries sys.nodes))

  unfoldable pub cpu_ids : System → List ℤ
  cpu_ids sys = range_ids "CpuIds" (keys (entries sys.cpus))

module _ ⦃c : Cpusets⦄ where
  open c use {CPUSet}

  unfoldable pub thread_cpuset : Cpu → CPUSet
  unfolding cpuset_of
  thread_cpuset cpu = cpuset_of cpu.threads

  unfoldable pub package_cpus : Package → CPUSet
  unfolding cpuset_of
  package_cpus pkg = cpuset_of pkg.cpus

  unfoldable pub node_cpus : Node → CPUSet
  unfolding cpuset_of
  node_cpus node = cpuset_of node.cpus

  unfoldable pub offlined : System → CPUSet
  unfolding cpuset_of
  offlined sys = cpuset_of sys.offline

module _ ⦃c : Cpusets⦄ ⦃g : GoRuntime⦄ where
  open c use {CPUSet}

  unfoldable pub system_cpuset : System → CPUSet
  unfolding cpuset_of new_id_set cpu_ids
  system_cpuset sys = cpuset_of (new_id_set (cpu_ids sys))

-- The distance to a node: -1 past the end of the table, and a panic (`none`) at a negative id.
distance_entry : ℕ → List ℤ → ℤ
distance_entry n [] = negsuc 0
distance_entry zero (d ∷ ds) = d
distance_entry (suc n) (d ∷ ds) = distance_entry n ds

unfoldable pub distance_from : Node → ℤ → Option ℤ
unfolding distance_entry
distance_from node (pos n) = some (distance_entry n node.distance)
distance_from node (negsuc n) = none
