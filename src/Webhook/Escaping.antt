-- ===== src/Webhook/Escaping.antt =====
-- cmd/cpu-pool-admissionwebhook/pool-admissionwebhook.go: `escapeName` against the reading of a JSON
-- pointer (RFC 6901), where `~0` stands for `~` and `~1` for `/`.
use Prim.Native.Char.{Char, code}
use Prim.Native.String.{String}
use text.Mathlib.TextEquality.{Char-path}
use cpu_policy_plugins_for_k.Prelude.{
  ◌≡◌, refl, Bool, true, false, nat_beq, nat_beq_iff, if◌then◌else◌, ap, ◌∙◌, Bool-cases, inl, inr,
}
use cpu_policy_plugins_for_k.Webhook.Patch.{replace_char, escape_name}

-- The character that an escape stands for; a `~` before any other one is left out.
abbrev unescaped : Char → Char
unescaped c = if nat_beq (code c) 48 then "~" else if nat_beq (code c) 49 then "/" else c

-- The reading of a segment, on a `~` or not.
abbrev unescape_from : Bool → String → String
unescape_from after_tilde String.[] = ""
unescape_from true (String.◌∷◌ c s) = String.◌∷◌ (unescaped c) (unescape_from false s)
unescape_from false (String.◌∷◌ c s) =
    let escape = unescape_from true s in
    let plain = String.◌∷◌ c (unescape_from false s) in
    if nat_beq (code c) 126 then escape else plain

abbrev pub unescape : String → String
unescape s = unescape_from false s

escape-tilde :
    (c : Char) (s : String)
    → code c ≡ 126
    → escape_name (String.◌∷◌ c s) ≡ String.◌∷◌ "~" (String.◌∷◌ "0" (escape_name s))
unfolding escape_name replace_char
escape-tilde c s e = rw e refl

escape-slash :
    (c : Char) (s : String)
    → code c ≡ 47
    → escape_name (String.◌∷◌ c s) ≡ String.◌∷◌ "~" (String.◌∷◌ "1" (escape_name s))
unfolding escape_name replace_char
escape-slash c s e = rw e (rw e refl)

escape-plain :
    (c : Char) (s : String)
    → nat_beq (code c) 126 ≡ false
    → nat_beq (code c) 47 ≡ false
    → escape_name (String.◌∷◌ c s) ≡ String.◌∷◌ c (escape_name s)
unfolding escape_name replace_char
escape-plain c s e f = rw e (rw f refl)

-- Whatever a resource is called, its escaped name is read back as its name.
pub unescape-escape_name : (name : String) → unescape (escape_name name) ≡ name
unfolding escape_name replace_char
unescape-escape_name String.[] = refl
unescape-escape_name (String.◌∷◌ c s) =
    let ih = unescape-escape_name s in
    elim (Bool-cases (nat_beq (code c) 126)) [
      | inl tilde ↦
          let is = (nat_beq_iff (code c) 126).0 tilde in
          let char : c ≡ "~" = Char-path c "~" is in
          ap unescape (escape-tilde c s is) ∙ rw char (ap (String.◌∷◌ "~") ih)
      | inr other ↦ elim (Bool-cases (nat_beq (code c) 47)) [
        | inl slash ↦
            let is = (nat_beq_iff (code c) 47).0 slash in
            let char : c ≡ "/" = Char-path c "/" is in
            ap unescape (escape-slash c s is) ∙ rw char (ap (String.◌∷◌ "/") ih)
        | inr plain ↦ ap unescape (escape-plain c s other plain) ∙ rw other (ap (String.◌∷◌ c) ih)
      ]
    ]
