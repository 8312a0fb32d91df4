-- ===== src/Kube/Milli.antt =====
-- Quantities as a number of units or of thousandths, which `Value` rounds away from zero.
use cpu_policy_plugins_for_k.Prelude.{◌+◌, ◌*◌, ◌/◌, refl}
use cpu_policy_plugins_for_k.Prelude.Int.{ℤ, pos, negsuc}
use cpu_policy_plugins_for_k.Kube.{Quantities}

pub data Amount : Type 0 where
  units : ℤ → Amount
  millis : ℤ → Amount

abbrev whole : Amount → ℤ
whole (units n) = n
whole (millis (pos n)) = pos ((n + 999) / 1000)
whole (millis (negsuc n)) = negsuc (n / 1000)

abbrev thousandths : Amount → ℤ
thousandths (units (pos n)) = pos (1000 * n)
thousandths (units (negsuc n)) = negsuc (1000 * n + 999)
thousandths (millis n) = n

-- The text is the same for all: nothing reads it back.
abbrev pub amounts : Quantities
amounts = record {
  Quantity = Amount;
  zero_quantity = units (pos 0);
  value = whole;
  milli_value = thousandths;
  new_quantity = units;
  new_milli_quantity = millis;
  print = λ a. "1";
  value-zero = refl;
  milli_value-zero = refl;
  value-new = λ n. refl;
  milli_value-new = λ n. refl;
  milli_value-new_milli = λ n. refl;
}
