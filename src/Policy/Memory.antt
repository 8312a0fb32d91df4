-- ===== src/Policy/Memory.antt =====
-- The interfaces of the plugin at concrete values: documents that are the records themselves, and a
-- stub state of maps.
use cpu_policy_plugins_for_k.Prelude.{
  ◌≡◌, refl, false, none, some, List, String, string_eq, ◌==◌, arith, ==-refl,
}
use cpu_policy_plugins_for_k.Prelude.GoMap.{GoMap, get, put, delete, get-put, get-delete}
use cpu_policy_plugins_for_k.Prelude.Int.{ℤ}
use cpu_policy_plugins_for_k.Prelude.Outcome.{Outcome, ok}
use cpu_policy_plugins_for_k.Errors.{Error}
use cpu_policy_plugins_for_k.Allocator.Tests.{sets}
use cpu_policy_plugins_for_k.Kube.{Quantities}
use cpu_policy_plugins_for_k.Kube.Milli.{Amount, amounts}
use cpu_policy_plugins_for_k.Pool.Checkpoint.{MarshalPoolSet, Json}
use cpu_policy_plugins_for_k.Policy.Store.{Stub}

instance abbrev pub quantities : Quantities
quantities = amounts

pub decode_encoded :
    (m doc : MarshalPoolSet)
    → (let a : Outcome Error MarshalPoolSet = ok m in a) ≡ ok doc
    → (let a : Outcome Error MarshalPoolSet = ok doc in a) ≡ ok m
decode_encoded m doc e = cc (e)

instance abbrev pub documents : Json
documents = record {
  Document = MarshalPoolSet;
  encode = λ m. ok m;
  decode = λ doc. ok doc;
  decode-encode = decode_encoded;
}

pub record StubState : Type 0 where
  pub assignments : GoMap String (List ℤ)
  pub default_cpus : List ℤ
  pub entries : GoMap String MarshalPoolSet
  pub resources : GoMap String Amount

pub get-put_self :
    {V : Type 0} (k : String) (v : V) (m : GoMap String V) → get k (put k v m) ≡ some v
get-put_self k v m = ground (arith, get-put k k v m, ==-refl k)

pub get-put_other :
    {V : Type 0} (k i : String) (v : V) (m : GoMap String V)
    → (k == i) ≡ false
    → get i (put k v m) ≡ get i m
get-put_other k i v m e = ground (arith, get-put i k v m, e)

pub get-delete_self : {V : Type 0} (k : String) (m : GoMap String V) → get k (delete k m) ≡ none
get-delete_self k m = ground (arith, get-delete k k m, ==-refl k)

instance abbrev pub stub : Stub
stub = record {
  State = StubState;
  get_cpuset = λ id s. get id s.assignments;
  get_default_cpuset = λ s. s.default_cpus;
  get_policy_entry = λ key s. get key s.entries;
  set_cpuset = λ id cpus s. record s { assignments = put id cpus s.assignments };
  set_default_cpuset = λ cpus s. record s { default_cpus = cpus };
  set_policy_entry = λ key doc s. record s { entries = put key doc s.entries };
  update_resource = λ name n s. record s { resources = put name n s.resources };
  forget = λ id s. record s { assignments = delete id s.assignments };
  get_cpuset-set = λ k v s. (v, get-put_self k v s.assignments, λ x. refl);
  get_cpuset-set_other = λ k i v s e. get-put_other k i v s.assignments e;
  get_cpuset-entry = λ i k d s. refl;
  get_cpuset-resource = λ i k n s. refl;
  get_cpuset-default = λ i v s. refl;
  get_cpuset-forget = λ k s. get-delete_self k s.assignments;
  get_default-set = λ v s. refl;
  entry-set = λ k d s. get-put_self k d s.entries;
  entry-cpuset = λ i k v s. refl;
  entry-resource = λ i k n s. refl;
  entry-default = λ i v s. refl;
}
