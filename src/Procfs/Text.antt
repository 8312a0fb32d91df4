-- ===== src/Procfs/Text.antt =====
-- What pkg/procfs/cmdline.go uses of package strings, on the characters of a text.
use Prim.Native.Char.{Char, code}
use Prim.Native.String.{String}
use cpu_policy_plugins_for_k.Prelude.{
  ℕ, Bool, Option, none, some, List, [], ◌∷◌, nat_beq, if◌then◌else◌,
}

-- The text before the first separator, and the pieces after it.
unfoldable pub split_first : ℕ → String → String × List String
split_first sep String.[] = ("", [])
split_first sep (String.◌∷◌ c s) =
    let (first, more) = split_first sep s in
    if nat_beq (code c) sep then ("", first ∷ more) else (String.◌∷◌ c first, more)

-- `strings.Split(s, sep)` for a separator of one character
unfoldable pub split : ℕ → String → List String
unfolding split_first
split sep s = let (first, more) = split_first sep s in first ∷ more

-- `strings.Trim(s, cutset)` for the characters that pass a test
unfoldable pub trim_left : (ℕ → Bool) → String → String
trim_left blank String.[] = ""
trim_left blank (String.◌∷◌ c s) =
    let rest = trim_left blank s in if blank (code c) then rest else String.◌∷◌ c s

unfoldable pub keep_char : (ℕ → Bool) → Char → String → String
keep_char blank c String.[] = if blank (code c) then "" else String.◌∷◌ c String.[]
keep_char blank c (String.◌∷◌ d s) = String.◌∷◌ c (String.◌∷◌ d s)

unfoldable pub trim_right : (ℕ → Bool) → String → String
trim_right blank String.[] = ""
trim_right blank (String.◌∷◌ c s) = keep_char blank c (trim_right blank s)

unfoldable pub trim : (ℕ → Bool) → String → String
trim blank s = trim_right blank (trim_left blank s)

-- `strings.SplitN(s, "=", 2)`: none if there is no separator
unfoldable pub cut : ℕ → String → Option (String × String)
cut sep String.[] = none
cut sep (String.◌∷◌ c s) =
    let later : Option (String × String) = elim (cut sep s) [
      | none ↦ none
      | some (key, value) ↦ some (String.◌∷◌ c key, value)
    ] in
    if nat_beq (code c) sep then some ("", s) else later
