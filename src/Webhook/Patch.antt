-- ===== src/Webhook/Patch.antt =====
-- cmd/cpu-pool-admissionwebhook/pool-admissionwebhook.go: `escapeName` and `createOp`. An operation
-- is its path, segment by segment, and its value; the text of the JSON around them is left out.
use Prim.Native.Char.{code}
use Prim.Native.String.{String}
use cpu_policy_plugins_for_k.Prelude.{ℕ, nat_beq, if◌then◌else◌}
use cpu_policy_plugins_for_k.Kube.{Quantities, resource_cpu}
use cpu_policy_plugins_for_k.Procfs.Words.{glue}
use cpu_policy_plugins_for_k.Webhook.Resources.{PoolResource}

-- `strings.Replace(s, c, with, -1)` for one character
unfoldable pub replace_char : ℕ → String → String → String
replace_char c with_text String.[] = ""
replace_char c with_text (String.◌∷◌ d s) =
    let rest = replace_char c with_text s in
    if nat_beq (code d) c then glue with_text rest else String.◌∷◌ d rest

-- `escapeName(name)`: 126 is `~`, 47 is `/`.
unfoldable pub escape_name : String → String
escape_name name = replace_char 47 "~1" (replace_char 126 "~0" name)

-- An operation that adds the value at `/spec/<target>/<index>/resources/<kind>/<name>`.
pub record PatchOp : Type 0 where
  pub target : String
  pub index : ℕ
  pub kind : String
  pub name : String
  pub value : String

module _ ⦃q : Quantities⦄ where
  open q use {print}

  -- `createOp(res, i, resourceType, target)`
  unfoldable pub create_op : PoolResource → ℕ → String → String → PatchOp
  create_op res i resource_type target = record {
    target = target;
    index = i;
    kind = resource_type;
    name = escape_name (if res.system then resource_cpu else res.pool);
    value = print res.quantity;
  }
