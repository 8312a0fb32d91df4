-- ===== src/Procfs/Words.antt =====
-- pkg/procfs/cmdline.go: what the parser makes of a line of options and flags.
use Prim.Native.Char.{Char, code}
use Prim.Native.String.{String}
use cpu_policy_plugins_for_k.Prelude.{
  ℕ, ◌≡◌, refl, Bool, false, none, some, [], ◌∷◌, string_eq, nat_beq, arith, ap,
}
use cpu_policy_plugins_for_k.Procfs.Text.{
  split_first, split, trim_left, trim_right, keep_char, trim, cut,
}

-- One text behind another.
abbrev pub glue : String → String → String
glue String.[] t = t
glue (String.◌∷◌ c s) t = String.◌∷◌ c (glue s t)

-- No character of a text passes a test.
abbrev pub Without : (ℕ → Bool) → String → Type 0
Without p String.[] = Unit {0}
Without p (String.◌∷◌ c s) = (p (code c) ≡ false) × Without p s

abbrev pub IsFilled : String → Type 0
IsFilled String.[] = ⊥
IsFilled (String.◌∷◌ c s) = Unit {0}

pub glue-IsFilled : (s t : String) → IsFilled t → IsFilled (glue s t)
glue-IsFilled String.[] t f = f
glue-IsFilled (String.◌∷◌ c s) t f = tt

pub IsFilled-glue : (s t : String) → IsFilled s → IsFilled (glue s t)
IsFilled-glue String.[] t f = absurd f
IsFilled-glue (String.◌∷◌ c s) t f = tt

pub Without-glue : (p : ℕ → Bool) (s t : String) → Without p s → Without p t → Without p (glue s t)
Without-glue p String.[] t h k = k
Without-glue p (String.◌∷◌ c s) t h k = (h.0, Without-glue p s t h.1 k)

pub Without-fewer :
    (p q : ℕ → Bool)
    → ((n : ℕ) → p n ≡ false → q n ≡ false)
    → (s : String) → Without p s
    → Without q s
Without-fewer p q h String.[] w = tt
Without-fewer p q h (String.◌∷◌ c s) w = (h (code c) w.0, Without-fewer p q h s w.1)

keep_char-filled :
    (p : ℕ → Bool) (c : Char) (s : String) → IsFilled s → keep_char p c s ≡ String.◌∷◌ c s
unfolding keep_char
keep_char-filled p c String.[] f = absurd f
keep_char-filled p c (String.◌∷◌ d s) f = refl

keep_char-kept :
    (p : ℕ → Bool) (c : Char) (s : String) → p (code c) ≡ false → keep_char p c s ≡ String.◌∷◌ c s
unfolding keep_char
keep_char-kept p c String.[] e = rw e refl
keep_char-kept p c (String.◌∷◌ d s) e = refl

-- Text with nothing to trim, before text that has nothing left at its end.
pub trim_right-glue :
    (p : ℕ → Bool) (s t : String) → Without p s → trim_right p (glue s t) ≡ glue s (trim_right p t)
unfolding trim_right
trim_right-glue p String.[] t w = refl
trim_right-glue p (String.◌∷◌ c s) t w =
    rw (trim_right-glue p s t w.1) (keep_char-kept p c (glue s (trim_right p t)) w.0)

pub trim_right-dropped :
    (p : ℕ → Bool) (s t : String) → trim_right p t ≡ "" → trim_right p (glue s t) ≡ trim_right p s
unfolding trim_right
trim_right-dropped p String.[] t e = e
trim_right-dropped p (String.◌∷◌ c s) t e = ap (keep_char p c) (trim_right-dropped p s t e)

-- A separator inside is kept if text that is kept follows.
pub trim_right-inside :
    (p : ℕ → Bool) (c : Char) (s : String)
    → IsFilled s
    → trim_right p s ≡ s
    → trim_right p (String.◌∷◌ c s) ≡ String.◌∷◌ c s
unfolding trim_right
trim_right-inside p c s f e = rw e (keep_char-filled p c s f)

glue-nil : (s : String) → glue s "" ≡ s
glue-nil String.[] = refl
glue-nil (String.◌∷◌ c s) = ap (String.◌∷◌ c) (glue-nil s)

pub trim_right-clean : (p : ℕ → Bool) (s : String) → Without p s → trim_right p s ≡ s
unfolding trim_right
trim_right-clean p String.[] w = refl
trim_right-clean p (String.◌∷◌ c s) w = rw (trim_right-clean p s w.1) (keep_char-kept p c s w.0)

pub trim-clean : (p : ℕ → Bool) (s : String) → Without p s → trim p s ≡ s
unfolding trim trim_left
trim-clean p String.[] w = trim_right-clean p "" w
trim-clean p (String.◌∷◌ c s) w = rw w.0 (trim_right-clean p (String.◌∷◌ c s) w)

-- A word, a separator, and the rest.
pub split-glue :
    (sep : ℕ) (w : String) (c : Char) (rest : String)
    → Without (nat_beq sep) w
    → code c ≡ sep
    → split sep (glue w (String.◌∷◌ c rest)) ≡ w ∷ split sep rest
unfolding split split_first
split-glue sep String.[] c rest e is = rw is (ground arith)
split-glue sep (String.◌∷◌ d w) c rest e is = ground (arith, split-glue sep w c rest e.1 is, e.0)

pub split-last : (sep : ℕ) (w : String) → Without (nat_beq sep) w → split sep w ≡ w ∷ []
unfolding split split_first
split-last sep String.[] e = refl
split-last sep (String.◌∷◌ d w) e = ground (arith, split-last sep w e.1, e.0)

pub cut-glue :
    (sep : ℕ) (k : String) (c : Char) (v : String)
    → Without (nat_beq sep) k
    → code c ≡ sep
    → cut sep (glue k (String.◌∷◌ c v)) ≡ some (k, v)
unfolding cut
cut-glue sep String.[] c v e is = rw is (ground arith)
cut-glue sep (String.◌∷◌ d k) c v e is = ground (arith, cut-glue sep k c v e.1 is, e.0)

pub cut-absent : (sep : ℕ) (k : String) → Without (nat_beq sep) k → cut sep k ≡ none
unfolding cut
cut-absent sep String.[] e = refl
cut-absent sep (String.◌∷◌ d k) e = ground (arith, cut-absent sep k e.1, e.0)

-- The first character of a text does not pass a test.
abbrev pub Starts : (ℕ → Bool) → String → Type 0
Starts p String.[] = ⊥
Starts p (String.◌∷◌ c s) = p (code c) ≡ false

pub Starts-Without : (p : ℕ → Bool) (s : String) → IsFilled s → Without p s → Starts p s
Starts-Without p String.[] f w = absurd f
Starts-Without p (String.◌∷◌ c s) f w = w.0

pub Starts-glue : (p : ℕ → Bool) (s t : String) → Starts p s → Starts p (glue s t)
Starts-glue p String.[] t h = absurd h
Starts-glue p (String.◌∷◌ c s) t h = h

pub trim_left-Starts : (p : ℕ → Bool) (s : String) → Starts p s → trim_left p s ≡ s
unfolding trim_left
trim_left-Starts p String.[] h = absurd h
trim_left-Starts p (String.◌∷◌ c s) h = rw h refl
