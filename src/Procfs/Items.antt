-- ===== src/Procfs/Items.antt =====
-- pkg/procfs/cmdline.go: a command line that is printed from options and flags, and read.
use Prim.Native.String.{String}
use mathlib.Core.Path.{subst}
use cpu_policy_plugins_for_k.Prelude.{
  ℕ, ◌≡◌, refl, Bool, false, ◌||◌, Option, none, some, List, [], ◌∷◌, string_eq, ◌==◌, nat_beq,
  if◌then◌else◌, arith, ap, ◌∙◌, Bool-cases, inl, inr,
}
use cpu_policy_plugins_for_k.Prelude.GoMap.{get, put, get-put}
use cpu_policy_plugins_for_k.Prelude.Outcome.{Outcome, ok}
use cpu_policy_plugins_for_k.Errors.{Error}
use cpu_policy_plugins_for_k.Procfs.Text.{
  split, split_first, trim, trim_left, trim_right, keep_char,
}
use cpu_policy_plugins_for_k.Procfs.Cmdline.{
  KernelCmdline, at_ends, blank, read_line, note_word, parse_words, parse_kernel_cmdline,
  option_value, flag,
}
use cpu_policy_plugins_for_k.Procfs.Words.{
  glue, Without, IsFilled, glue-IsFilled, IsFilled-glue, Without-glue, Without-fewer,
  trim_right-glue, trim_right-dropped, trim_right-inside, trim_right-clean, trim-clean, Starts,
  Starts-Without, Starts-glue, trim_left-Starts, split-glue, split-last, cut-glue, cut-absent,
}

-- A word of the line: `key=value`, or a flag.
pub data Item : Type 0 where
  setting : String → String → Item
  lone : String → Item

abbrev pub print_item : Item → String
print_item (setting key value) = glue key (String.◌∷◌ "=" value)
print_item (lone key) = key

abbrev pub print_line : List Item → String
print_line [] = ""
print_line (item ∷ []) = print_item item
print_line (item ∷ next ∷ rest) = glue (print_item item) (String.◌∷◌ " " (print_line (next ∷ rest)))

-- What a word is set off by, and what a key ends at.
abbrev pub spaced : ℕ → Bool
spaced c = nat_beq 32 c || nat_beq 9 c || nat_beq 10 c

-- Words with nothing in them that sets words off; only values have a `=`, and a flag is not empty.
abbrev pub IsItem : Item → Type 0
IsItem (setting key value) = Without spaced key × Without spaced value × Without (nat_beq 61) key
IsItem (lone key) = Without spaced key × Without (nat_beq 61) key × IsFilled key

abbrev pub AllItems : List Item → Type 0
AllItems [] = Unit {0}
AllItems (item ∷ rest) = IsItem item × AllItems rest

-- The value that the last word with a key gives it.
abbrev pub last_value : String → List Item → Option String → Option String
last_value key [] before = before
last_value key (setting k value ∷ rest) before =
    last_value key rest (if k == key then some value else before)
last_value key (lone k ∷ rest) before = last_value key rest before

-- Whether a word is the flag.
abbrev pub flagged : String → List Item → Bool
flagged key [] = false
flagged key (setting k value ∷ rest) = flagged key rest
flagged key (lone k ∷ rest) = k == key || flagged key rest

print_item-Without : (item : Item) → IsItem item → Without spaced (print_item item)
print_item-Without (setting key value) (k, v, e) =
    Without-glue spaced key (String.◌∷◌ "=" value) k (refl, v)
print_item-Without (lone key) (k, e, f) = k

print_item-IsFilled : (item : Item) → IsItem item → IsFilled (print_item item)
print_item-IsFilled (setting key value) h = glue-IsFilled key (String.◌∷◌ "=" value) tt
print_item-IsFilled (lone key) (k, e, f) = f

unspaced_blank : (s : String) → Without spaced s → Without blank s
unspaced_blank = Without-fewer spaced blank (λ n e. ground arith)

unspaced_ends : (s : String) → Without spaced s → Without at_ends s
unspaced_ends = Without-fewer spaced at_ends (λ n e. ground arith)

unspaced_space : (s : String) → Without spaced s → Without (nat_beq 32) s
unspaced_space = Without-fewer spaced (nat_beq 32) (λ n e. ground arith)

print_line-IsFilled :
    (item : Item) (rest : List Item) → IsItem item → IsFilled (print_line (item ∷ rest))
print_line-IsFilled item [] h = print_item-IsFilled item h
print_line-IsFilled item (next ∷ rest) h =
    IsFilled-glue (print_item item) _ (print_item-IsFilled item h)

line_end :
    (items : List Item) → AllItems items → trim_right at_ends (print_line items) ≡ print_line items
unfolding trim_right
line_end [] h = refl
line_end (item ∷ []) (h, k) =
    trim_right-clean at_ends (print_item item) (unspaced_ends _ (print_item-Without item h))
line_end (item ∷ next ∷ rest) (h, k) =
    let word = print_item item in
    let later = print_line (next ∷ rest) in
    trim_right-glue at_ends word (String.◌∷◌ " " later)
      (unspaced_ends word (print_item-Without item h))
    ∙ ap (glue word) (
        trim_right-inside at_ends " " later (print_line-IsFilled next rest k.0)
          (line_end (next ∷ rest) k))

line_start :
    (item : Item) (rest : List Item) → IsItem item → Starts at_ends (print_line (item ∷ rest))
line_start item rest h =
    let word = print_item item in
    let begins =
      Starts-Without at_ends word (print_item-IsFilled item h)
        (unspaced_ends word (print_item-Without item h)) in
    start_of rest begins
  where
    start_of :
        (rest : List Item)
        → Starts at_ends (print_item item)
        → Starts at_ends (print_line (item ∷ rest))
    start_of [] b = b
    start_of (next ∷ rest) b = Starts-glue at_ends (print_item item) _ b

-- What `read` keeps of a file with the line and a newline.
trimmed_line :
    (items : List Item)
    → AllItems items
    → trim at_ends (glue (print_line items) (String.◌∷◌ "\n" "")) ≡ print_line items
unfolding trim trim_left trim_right keep_char
trimmed_line [] h = refl
trimmed_line (item ∷ rest) h =
    let line = print_line (item ∷ rest) in
    let newline : String = String.◌∷◌ "\n" "" in
    ap (trim_right at_ends) (
      trim_left-Starts at_ends (glue line newline)
        (Starts-glue at_ends line newline (line_start item rest h.0)))
    ∙ trim_right-dropped at_ends line newline refl
    ∙ line_end (item ∷ rest) h

-- The words of a line.
abbrev words : List Item → List String
words [] = []
words (item ∷ rest) = print_item item ∷ words rest

split_line :
    (item : Item) (rest : List Item)
    → AllItems (item ∷ rest)
    → split 32 (print_line (item ∷ rest)) ≡ words (item ∷ rest)
split_line item [] (h, k) =
    split-last 32 (print_item item) (unspaced_space _ (print_item-Without item h))
split_line item (next ∷ rest) (h, k) =
    split-glue 32 (print_item item) " " (print_line (next ∷ rest))
      (unspaced_space _ (print_item-Without item h)) refl
    ∙ ap (λ (r : List String). print_item item ∷ r) (split_line next rest k)

-- What a word adds.
abbrev note_item : Item → KernelCmdline → KernelCmdline
note_item (setting key value) kcl = record kcl { options = put key value kcl.options }
note_item (lone key) kcl = record kcl { flags = put key tt kcl.flags }

note_word-print :
    (item : Item) (kcl : KernelCmdline)
    → IsItem item
    → note_word (print_item item) kcl ≡ note_item item kcl
unfolding note_word
note_word-print (setting key value) kcl (k, v, e) =
    rw (cut-glue 61 key "=" value e refl, note_word) refl
note_word-print (lone key) kcl (k, e, f) = rw (cut-absent 61 key e, note_word) refl

filled_test : (s : String) → IsFilled s → (s == "") ≡ false
filled_test String.[] f = absurd f
filled_test (String.◌∷◌ c s) f = elim (Bool-cases (String.◌∷◌ c s == "")) [
  | inr other ↦ other
  | inl same ↦ absurd (subst IsFilled ((string_eq.equal_iff (String.◌∷◌ c s) "").0 same) tt)
]

parse_step :
    (item : Item) (rest : List String) (kcl : KernelCmdline)
    → IsItem item
    → parse_words (print_item item ∷ rest) kcl ≡ parse_words rest (note_item item kcl)
unfolding parse_words
parse_step item rest kcl h =
    let word = print_item item in
    let whole = trim-clean blank word (unspaced_blank word (print_item-Without item h)) in
    rw whole (
      rw (filled_test word (print_item-IsFilled item h))
        (ap (parse_words rest) (note_word-print item kcl h)))

-- What the words of a line leave, key by key.
parse_words-words :
    (items : List Item) (kcl : KernelCmdline)
    → AllItems items
    → ((key : String)
        → option_value key (parse_words (words items) kcl)
          ≡ last_value key items (option_value key kcl))
      × ((key : String)
          → flag key (parse_words (words items) kcl) ≡ flagged key items || flag key kcl)
unfolding parse_words option_value flag
parse_words-words [] kcl h = (λ key. refl, λ key. refl)
parse_words-words (setting k v ∷ rest) kcl (h, more) =
    let (options, flags) = parse_words-words rest (note_item (setting k v) kcl) more in
    let step = parse_step (setting k v) (words rest) kcl h in
    (
      λ key.
          ap (option_value key) step
          ∙ options key
          ∙ ap (last_value key rest) (get-put key k v kcl.options),
      λ key. ap (flag key) step ∙ flags key,
    )
parse_words-words (lone k ∷ rest) kcl (h, more) =
    let (options, flags) = parse_words-words rest (note_item (lone k) kcl) more in
    let step = parse_step (lone k) (words rest) kcl h in
    (
      λ key. ap (option_value key) step ∙ options key,
      λ key. ap (flag key) step ∙ flags key ∙ ground (arith, get-put key k tt kcl.flags),
    )

as_words :
    (items : List Item) (kcl : KernelCmdline)
    → AllItems items
    → parse_words (split 32 (print_line items)) kcl ≡ parse_words (words items) kcl
unfolding parse_words split split_first trim trim_left trim_right
as_words [] kcl h = refl
as_words (item ∷ rest) kcl h =
    ap (λ (ws : List String). parse_words ws kcl) (split_line item rest h)

-- The line of a file as it is read, with nothing noted yet.
abbrev fresh_line : String → List Item → KernelCmdline
fresh_line path items = record { path = path; cmdline = print_line items; options = []; flags = [] }

abbrev unread : String → KernelCmdline
unread path = record { path = path; cmdline = ""; options = []; flags = [] }

read_fresh :
    (read_file : String → Outcome Error String) (path : String) (items : List Item)
    → AllItems items
    → read_file path ≡ ok (glue (print_line items) (String.◌∷◌ "\n" ""))
    → read_line read_file (unread path) ≡ ok (fresh_line path items)
unfolding read_line
read_fresh read_file path items h e =
    rw (e, read_line)
      (ap (λ (line : String). ok (record (unread path) { cmdline = line })) (trimmed_line items h))

read_whole :
    (read_file : String → Outcome Error String) (path : String) (items : List Item)
    → AllItems items
    → read_file path ≡ ok (glue (print_line items) (String.◌∷◌ "\n" ""))
    → parse_kernel_cmdline read_file path ≡ ok (parse_words (words items) (fresh_line path items))
unfolding parse_kernel_cmdline
read_whole read_file path items h e = ground (
  arith,
  read_fresh read_file path items h e,
  ap {B = Outcome Error KernelCmdline} ok (as_words items (fresh_line path items) h),
)

-- A file that is a line of options and flags with one space between them and a newline at the end is
-- read: every option has the value that its last word gives it, every flag of the line is set, and
-- nothing else is. Keys and values have no blanks, keys no `=`, and a flag is not empty.
pub parse_kernel_cmdline-print_line :
    (read_file : String → Outcome Error String) (path : String) (items : List Item)
    → AllItems items
    → read_file path ≡ ok (glue (print_line items) (String.◌∷◌ "\n" ""))
    → (kcl : KernelCmdline) × (parse_kernel_cmdline read_file path ≡ ok kcl)
      × ((key : String) → option_value key kcl ≡ last_value key items none)
      × ((key : String) → flag key kcl ≡ flagged key items)
unfolding option_value flag get
parse_kernel_cmdline-print_line read_file path items h e =
    let (options, flags) = parse_words-words items (fresh_line path items) h in
    (
      parse_words (words items) (fresh_line path items),
      read_whole read_file path items h e,
      options,
      λ key. flags key ∙ ground arith,
    )
