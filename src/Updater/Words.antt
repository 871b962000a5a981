-- ===== src/Updater/Words.antt =====
-- How the POSIX shell reads the commands of src/updater.cpp.
use torrent_builder.Common.{
  ℕ, ◌≡◌, refl, sym, ap, ◌∙◌, arith, Bytes, List, [], ◌∷◌, ◌++◌, append_assoc, append-nil,
  Option-cases, Bool, true, false, ◌||◌, ◌==◌, if◌then◌else◌, Bool-cases, inl, inr, Option, none,
  some, codes,
}
use torrent_builder.Escape.{isalnum}
use torrent_builder.Updater.Shell.{quoted, escape_shell_arg, append_args, curl_command}

-- Where the reader stands: between words, in a word, behind a backslash, or between single quotes.
pub data Reading : Type 0 where
  between : Reading
  inside : Reading
  escaped : Reading
  single : Reading

-- A byte that means nothing to the shell outside quotes.
abbrev pub is_plain : ℕ → Bool
is_plain c =
    isalnum c || ((c == b'-') || ((c == b'=') || ((c == b'/') || ((c == b'.') || (c == b'_')))))

-- The words of a command of plain bytes, blanks, single quotes and escaped bytes, where `word` is what
-- has been read of the present word; none if another byte occurs or a quote is left open.
unfoldable pub sh_words : Reading → Bytes → Bytes → Option (List Bytes)
sh_words between word [] = some []
sh_words inside word [] = some (word ∷ [])
sh_words escaped word [] = none
sh_words single word [] = none
sh_words between word (c ∷ s) =
    if c == b' '
    then sh_words between [] s
    else if c == b'\''
    then sh_words single [] s
    else if c == b'\\'
    then sh_words escaped [] s
    else if is_plain c
    then sh_words inside (c ∷ []) s
    else none
sh_words inside word (c ∷ s) =
    if c == b' '
    then (elim (sh_words between [] s) [ none ↦ none | some words ↦ some (word ∷ words) ])
    else if c == b'\''
    then sh_words single word s
    else if c == b'\\'
    then sh_words escaped word s
    else if is_plain c
    then sh_words inside (word ++ c ∷ []) s
    else none
sh_words escaped word (c ∷ s) = sh_words inside (word ++ c ∷ []) s
sh_words single word (c ∷ s) =
    if c == b'\'' then sh_words inside word s else sh_words single (word ++ c ∷ []) s

single_other :
    (c : ℕ) (word s : Bytes)
    → c == b'\'' ≡ false
    → sh_words single word (c ∷ s) ≡ sh_words single (word ++ c ∷ []) s
unfolding sh_words
single_other c word s other = rw other refl

-- Between the quotes of an argument, the shell reads the argument.
quoted-sh_words :
    (arg word s : Bytes)
    → sh_words single word (quoted arg ++ (b'\'' ∷ s)) ≡ sh_words inside (word ++ arg) s
unfolding quoted sh_words
quoted-sh_words [] word s = ap (λ w. sh_words inside w s) (sym (append-nil word))
quoted-sh_words (c ∷ arg) word s = elim (Bool-cases (c == b'\'')) [
  | inl quote ↦ rw quote (
      quoted-sh_words arg (word ++ b'\'' ∷ []) s
      ∙ ap (λ w. sh_words inside w s)
          (append_assoc word (b'\'' ∷ []) arg ∙ ap (λ x. word ++ x ∷ arg) (the_quote c quote)))
  | inr other ↦ rw other (
      single_other c word (quoted arg ++ (b'\'' ∷ s)) other
      ∙ quoted-sh_words arg (word ++ c ∷ []) s
      ∙ ap (λ w. sh_words inside w s) (append_assoc word (c ∷ []) arg))
]
  where
    the_quote : (c : ℕ) → c == b'\'' ≡ true → b'\'' ≡ c
    the_quote c e = ground arith

-- Behind a blank, an escaped argument is read as the argument.
escape_shell_arg-sh_words :
    (arg s : Bytes) → sh_words between [] (escape_shell_arg arg ++ s) ≡ sh_words inside arg s
unfolding escape_shell_arg sh_words
escape_shell_arg-sh_words arg s =
    ap (sh_words single []) (append_assoc (quoted arg) (codes "'") s) ∙ quoted-sh_words arg [] s

-- The word goes before those that the rest is read as.
abbrev pub add_word : Bytes → Option (List Bytes) → Option (List Bytes)
add_word word none = none
add_word word (some words) = some (word ∷ words)

blank_lem :
    (word s : Bytes) → sh_words inside word (b' ' ∷ s) ≡ add_word word (sh_words between [] s)
unfolding sh_words
blank_lem word s = elim (Option-cases (sh_words between [] s)) [
  | inl e ↦ rw (e, sh_words) refl
  | inr (words, e) ↦ rw (e, sh_words) refl
]

next_arg :
    (word arg s : Bytes)
    → sh_words inside word (b' ' ∷ (escape_shell_arg arg ++ s))
      ≡ add_word word (sh_words inside arg s)
next_arg word arg s =
    blank_lem word (escape_shell_arg arg ++ s)
    ∙ ap (add_word word) (escape_shell_arg-sh_words arg s)

args-sh_words :
    (args : List Bytes) (word url : Bytes)
    → sh_words inside word (append_args args ++ (b' ' ∷ escape_shell_arg url))
      ≡ some (word ∷ (args ++ url ∷ []))
unfolding append_args
args-sh_words [] word url =
    ap (λ u. sh_words inside word (b' ' ∷ u)) (sym (append-nil (escape_shell_arg url)))
    ∙ next_arg word url []
    ∙ ap (add_word word) (last_word url)
  where
    last_word : (url : Bytes) → sh_words inside url [] ≡ some (url ∷ [])
    last_word url = unfold sh_words in refl
args-sh_words (arg ∷ args) word url =
    ap (λ u. sh_words inside word (b' ' ∷ u))
      (append_assoc (escape_shell_arg arg) (append_args args) (b' ' ∷ escape_shell_arg url))
    ∙ next_arg word arg (append_args args ++ (b' ' ∷ escape_shell_arg url))
    ∙ ap (add_word word) (args-sh_words args arg url)

abbrev add_words : List Bytes → Option (List Bytes) → Option (List Bytes)
add_words [] rest = rest
add_words (word ∷ words) rest = add_word word (add_words words rest)

-- The options that every request has, but for the last one.
abbrev pub curl_options : List Bytes
curl_options =
    codes "-s"
    ∷ codes "-S"
    ∷ codes "-L"
    ∷ codes "--connect-timeout"
    ∷ codes "30"
    ∷ codes "--max-time"
    ∷ codes "300"
    ∷ codes "--proto"
    ∷ []

options_lem :
    (word s : Bytes)
    → sh_words inside word
        (codes " -s -S -L --connect-timeout 30 --max-time 300 --proto =https" ++ s)
      ≡ add_words (word ∷ curl_options) (sh_words inside (codes "=https") s)
unfolding sh_words
options_lem word s = refl

-- Whatever the path of curl, the URL and the arguments are, the shell reads the command of a request
-- as curl's path, the options, each of the arguments as it was given, and the URL.
pub curl_command-sh_words :
    (curl_path url : Bytes) (extra_args : List Bytes)
    → sh_words between [] (curl_command curl_path url extra_args)
      ≡ some (curl_path ∷ (curl_options ++ (codes "=https" ∷ (extra_args ++ url ∷ []))))
unfolding curl_command
curl_command-sh_words curl_path url extra_args =
    escape_shell_arg-sh_words curl_path _
    ∙ options_lem curl_path (append_args extra_args ++ (b' ' ∷ escape_shell_arg url))
    ∙ ap (add_words (curl_path ∷ curl_options)) (args-sh_words extra_args (codes "=https") url)
