-- ===== src/Updater/Checksums.antt =====
-- `lookup_checksum` of src/updater.cpp on a checksum file.
use torrent_builder.Common.{
  ℕ, suc, ◌≡◌, refl, sym, ap, ◌∙◌, arith, Bytes, List, [], ◌∷◌, ◌++◌, append_assoc, append-nil,
  Bool, true, false, not, ◌&&◌, ◌||◌, ◌==◌, if◌then◌else◌, Bool-cases, inl, inr, Option, none, some,
  All, All-append, Lacks, length, drop, take-length-append, bytes_eq, is_empty,
}
use torrent_builder.Text.{to_lower}
use torrent_builder.Text.Laws.{find_byte-append}
use torrent_builder.Updater.Release.{
  lines_from, skip_blanks, cut_blanks, skip_star, checksum_line, checksum_in, lookup_checksum,
}

-- Neither a blank nor a line break.
abbrev pub is_dark : ℕ → Bool
is_dark c = not ((c == b' ') || ((c == b'\t') || ((c == b'\r') || (c == b'\n'))))

-- A name, or a hash.
abbrev pub IsWord : Bytes → Type 0
IsWord = All (λ c. is_dark c ≡ true)

-- The hash, two blanks and the name, as sha256sum writes them.
abbrev pub entry_line : Bytes × Bytes → Bytes
entry_line entry = entry.0 ++ (b' ' ∷ b' ' ∷ entry.1)

abbrev pub checksum_file : List (Bytes × Bytes) → Bytes
checksum_file [] = []
checksum_file (entry ∷ entries) = entry_line entry ++ (b'\n' ∷ checksum_file entries)

-- The hash of the first entry with the name.
abbrev pub first_hash : List (Bytes × Bytes) → Bytes → Option Bytes
first_hash [] name = none
first_hash ((hash, n) ∷ entries) name =
    if bytes_eq n name then some (to_lower hash) else first_hash entries name

lines_from_line :
    (line s rest : Bytes)
    → All (λ c. (c == b'\n') ≡ false) s
    → lines_from line (s ++ (b'\n' ∷ rest)) ≡ (line ++ s) ∷ lines_from [] rest
unfolding lines_from
lines_from_line line [] rest h = ap (λ l. l ∷ lines_from [] rest) (sym (append-nil line))
lines_from_line line (c ∷ s) rest (other, h) = rw other (
    lines_from_line (line ++ c ∷ []) s rest h
    ∙ ap (λ l. l ∷ lines_from [] rest) (append_assoc line (c ∷ []) s))

dark_breaks : (s : Bytes) → All (λ c. is_dark c ≡ true) s → All (λ c. (c == b'\n') ≡ false) s
dark_breaks [] h = tt
dark_breaks (c ∷ s) (dark, h) = (ground arith, dark_breaks s h)

dark-Lacks : (s : Bytes) → All (λ c. is_dark c ≡ true) s → Lacks b' ' s
dark-Lacks [] h = tt
dark-Lacks (c ∷ s) (dark, h) = (ground arith, dark-Lacks s h)

skip_blanks_dark : (s : Bytes) → All (λ c. is_dark c ≡ true) s → skip_blanks s ≡ s
unfolding skip_blanks
skip_blanks_dark [] h = refl
skip_blanks_dark (c ∷ s) (dark, h) = rw (not_blank c dark) refl
  where
    not_blank : (c : ℕ) → is_dark c ≡ true → ((c == b' ') || (c == b'\t')) ≡ false
    not_blank c h = ground arith

cut_blanks_dark : (s : Bytes) → All (λ c. is_dark c ≡ true) s → cut_blanks s ≡ s
unfolding cut_blanks
cut_blanks_dark [] h = refl
cut_blanks_dark (c ∷ s) (dark, h) = rw (cut_blanks_dark s h) (keeps c (is_empty s) s dark)
  where
    keeps :
        (c : ℕ) (e : Bool) (s : Bytes)
        → is_dark c ≡ true
        → (if e && ((c == b' ') || ((c == b'\t') || ((c == b'\r') || (c == b'\n'))))
            then []
            else c ∷ s)
          ≡ c ∷ s
    keeps c e s dark = ground arith

drop-append : (s : Bytes) (c : ℕ) (t : Bytes) → drop (suc (length s)) (s ++ c ∷ t) ≡ t
drop-append [] c t = refl
drop-append (d ∷ s) c t = drop-append s c t

checksum_line-entry :
    (hash name : Bytes)
    → IsWord hash
    → IsWord name
    → checksum_line (entry_line (hash, name)) ≡ some (hash, name)
unfolding checksum_line skip_star
checksum_line-entry hash name dark_hash dark_name =
    rw (find_byte-append b' ' hash (b' ' ∷ name) (dark-Lacks hash dark_hash), checksum_line)
      (rw
        (
          take-length-append hash (b' ' ∷ b' ' ∷ name),
          drop-append hash b' ' (b' ' ∷ name),
          skip_blanks_dark name dark_name,
          cut_blanks_dark name dark_name,
        )
        refl)

breaks_entry :
    (hash name : Bytes)
    → IsWord hash
    → IsWord name
    → All (λ c. (c == b'\n') ≡ false) (entry_line (hash, name))
breaks_entry hash name dark_hash dark_name =
    All-append _ hash (b' ' ∷ b' ' ∷ name) (dark_breaks hash dark_hash)
      (refl, (refl, dark_breaks name dark_name))

-- From a file that lists the hash, two blanks and the name of each asset on lines of their own,
-- `lookup_checksum` gives the hash of the first entry with the name, in lower case, and nothing if
-- there is no such entry; hashes and names hold no blanks and no line breaks.
pub lookup_checksum-checksum_file :
    (entries : List (Bytes × Bytes)) (name : Bytes)
    → All (λ entry. IsWord entry.0 × IsWord entry.1) entries
    → lookup_checksum (checksum_file entries) name ≡ first_hash entries name
unfolding lookup_checksum checksum_in lines_from
lookup_checksum-checksum_file [] name h = refl
lookup_checksum-checksum_file ((hash, n) ∷ entries) name ((is_hash, is_name), h) =
    rw
      (
        lines_from_line [] (entry_line (hash, n)) (checksum_file entries)
            (breaks_entry hash n is_hash is_name),
        checksum_line-entry hash n is_hash is_name,
        checksum_in,
      )
      (elim (Bool-cases (bytes_eq n name)) [
        | inl found ↦ rw (found, checksum_in) refl
        | inr other ↦ rw (other, checksum_in) (lookup_checksum-checksum_file entries name h)
      ])
