-- ===== src/Checker/Read.antt =====
-- A piece that is read from complete files is the piece of their contents, one after another.
mod Write
mod Part
use torrent_builder.Common.{
  ℕ, zero, suc, ◌+◌, ◌-◌, ◌*◌, ◌≤◌, ◌<◌, ◌≡◌, refl, sym, ap, ap₂, ◌∙◌, subst, Bytes, List, [], ◌∷◌,
  ◌++◌, append_assoc, append-nil, Bool, true, false, Bool-cases, Option, none, some, ltb, leb,
  if◌then◌else◌, length, take, drop, replicate, arith, ltb→lt, ltb→le, leb→le, leb→lt, le→leb,
  lt→leb, le→ltb, length-append, length-take, length-drop, length-replicate, replicate-add,
  take-append-drop, take-length-append, drop-length-append, take_all, value_or, ◌⊎◌, inl, inr,
}
use Prim.Native.Nat.{min, max}
use torrent_builder.Checker.{
  StoredFile, file_end, Disk, write_at, read_file, read_loop, read_piece_data, find_file_for_piece,
}
use torrent_builder.Checker.Search.{IsLaidOut, Finds, end_at, find_file_for_piece-Finds}
use torrent_builder.Checker.{zeros}
use Write.{
  take-append, drop-append, drop-append_more, take-append_more, write_at-zeros, zeros-add,
  drop-zeros, take-zeros,
}
use Part.{overlap, part, length-part, read_file-part, take-part, part-zeros}

-- The bytes that the torrent holds for a file: zeros for a padding file.
abbrev pub contents : Disk → StoredFile → Bytes
contents disk f = if f.pad then zeros f.size else value_or (disk f.path) []

-- The contents of the files, one after another.
abbrev pub stream : Disk → List StoredFile → Bytes
stream disk [] = []
stream disk (f ∷ fs) = contents disk f ++ stream disk fs

-- Every file that is no padding is on the disk, with its size.
abbrev pub IsComplete : Disk → List StoredFile → Type 0
IsComplete disk [] = Unit
IsComplete disk (f ∷ fs) =
    ((f.pad ≡ true)
      ⊎ ((c : Bytes) × (f.pad ≡ false) × (disk f.path ≡ some c) × (length c ≡ f.size)))
    × IsComplete disk fs

module _ (ps pe : ℕ) (forward : ps ≤ pe) (disk : Disk) where
  pub read_loop_skip :
      (f : StoredFile) (fs : List StoredFile) (buffer : Bytes)
      → f.offset < pe
      → (file_end f ≤ ps) ⊎ (f.pad ≡ true)
      → read_loop ps pe disk (f ∷ fs) buffer ≡ read_loop ps pe disk fs buffer
  unfolding read_loop
  read_loop_skip f fs buffer a (inl before) =
      rw (lt→leb pe f.offset a, le→leb (file_end f) ps before)
  read_loop_skip f fs buffer a (inr pad) =
      rw (lt→leb pe f.offset a, read_loop, pad) (either (leb (file_end f) ps))
    where
      either :
          (b : Bool)
          → (if b then read_loop ps pe disk fs buffer else read_loop ps pe disk fs buffer)
            ≡ read_loop ps pe disk fs buffer
      either true = refl
      either false = refl

  read_loop_read :
      (f : StoredFile) (fs : List StoredFile) (buffer : Bytes)
      → f.offset < pe
      → ps < file_end f
      → f.pad ≡ false
      → read_loop ps pe disk (f ∷ fs) buffer
        ≡ read_loop ps pe disk fs (read_file ps pe disk f buffer)
  unfolding read_loop
  read_loop_read f fs buffer a b real = rw (lt→leb pe f.offset a, lt→leb (file_end f) ps b, real)

  -- The buffer before the file at `base`: what is read already, and as many zeros as are to come.
  pub record IsPartial (base : ℕ) (front : Bytes) (m : ℕ) : Type 0 where
    pub here : length front ≡ min base pe - ps
    pub all : length front + m ≡ pe - ps

  -- The buffer is finished as the stream says.
  abbrev pub Finishes : ℕ → List StoredFile → Bytes → ℕ → Type 0
  Finishes base fs front m =
      read_loop ps pe disk fs (front ++ zeros m)
      ≡ front ++ take m (drop (ps - base) (stream disk fs))

  part-IsPartial :
      (base size : ℕ) (c front : Bytes) (m : ℕ)
      → base < pe
      → ps < base + size
      → length c ≡ size
      → IsPartial base front m
      → IsPartial
          (base + size)
          (front ++ part ps pe disk base size c)
          (m - overlap ps pe disk base size)
  part-IsPartial base size c front m a b e h =
      let grown : length (front ++ part ps pe disk base size c)
          ≡ length front + overlap ps pe disk base size =
        length-append front (part ps pe disk base size c)
        ∙ ap (λ n. length front + n) (length-part ps pe disk base size c a b e) in
      record {
        here = rw grown (omega (arith, h.here));
        all = rw grown (omega (arith, h.here, h.all));
      }

  -- One file's part ps pe disk is written, and the rest of the files finish the buffer.
  finish-part :
      (base size : ℕ) (c : Bytes) (fs : List StoredFile) (front : Bytes) (m : ℕ)
      → base < pe
      → ps < base + size
      → length c ≡ size
      → IsPartial base front m
      → Finishes
          (base + size)
          fs
          (front ++ part ps pe disk base size c)
          (m - overlap ps pe disk base size)
      → read_loop ps pe disk fs
          (front ++ (part ps pe disk base size c ++ zeros (m - overlap ps pe disk base size)))
        ≡ front ++ take m (drop (ps - base) (c ++ stream disk fs))
  finish-part base size c fs front m a b e h rest =
      ap (read_loop ps pe disk fs) (
        sym (
          append_assoc front (part ps pe disk base size c)
            (zeros (m - overlap ps pe disk base size))))
      ∙ rest
      ∙ append_assoc front (part ps pe disk base size c) _
      ∙ ap (λ t. front ++ t)
          (sym (
            take-part ps pe disk base size c (stream disk fs) m (m - overlap ps pe disk base size) a
              b e (omega (arith, h.here, h.all)) (omega (arith, h.here, h.all))))

  -- A file that begins inside the piece, when the rest of the files finish any buffer.
  file-Finishes :
      (base : ℕ) (f : StoredFile) (fs : List StoredFile) (front : Bytes) (m : ℕ)
      → IsLaidOut base (f ∷ fs)
      → IsComplete disk (f ∷ fs)
      → IsPartial base front m
      → pe ≤ base + length (stream disk (f ∷ fs))
      → f.offset < pe
      → ((front' : Bytes) (m' : ℕ)
          → IsPartial (base + f.size) front' m'
          → pe ≤ base + f.size + length (stream disk fs)
          → Finishes (base + f.size) fs front' m')
      → Finishes base (f ∷ fs) front m
  file-Finishes base f fs front m laid full h enough a rest =
      elim (Bool-cases (leb (file_end f) ps)) [
        | inl before ↦
            let early : base + f.size ≤ ps = omega (arith, leb→le (file_end f) ps before, laid.0) in
            let gone : ps - base - length (contents disk f) ≡ ps - (base + f.size) =
              omega (arith, size) in
            read_loop_skip f fs (front ++ zeros m) a (inl (leb→le (file_end f) ps before))
            ∙ rest front m (record { here = omega (arith, h.here); all = h.all }) more
            ∙ ap (λ t. front ++ take m t)
                (sym (
                  drop-append_more (ps - base) (contents disk f) (stream disk fs)
                    (omega (arith, size))
                  ∙ ap (λ j. drop j (stream disk fs)) gone))
        | inr inside ↦
            let late : ps < base + f.size = omega (arith, leb→lt (file_end f) ps inside, laid.0) in
            let in_piece : base < pe = omega (arith, laid.0) in
            elim full.0 [
              | inl pad ↦
                  let c : Bytes = zeros f.size in
                  let e : c ≡ contents disk f = sym (rw pad) in
                  let sized : length c ≡ f.size = length-replicate f.size 0 in
                  read_loop_skip f fs (front ++ zeros m) a (inr pad)
                  ∙ ap (λ z. read_loop ps pe disk fs (front ++ z))
                      (part-zeros ps pe disk base f.size m in_piece late
                        (omega (arith, h.here, h.all)))
                  ∙ finish-part base f.size c fs front m in_piece late sized h
                      (rest _ _ (part-IsPartial base f.size c front m in_piece late sized h) more)
                  ∙ ap (λ t. front ++ take m (drop (ps - base) (t ++ stream disk fs))) e
              | inr (c, real, found, sized) ↦
                  let e : c ≡ contents disk f = sym (rw (real, found)) in
                  read_loop_read f fs (front ++ zeros m) a (leb→lt (file_end f) ps inside) real
                  ∙ ap (read_loop ps pe disk fs) (
                      read_file-part ps pe disk base f c front m
                        (m - overlap ps pe disk base f.size) laid.0 in_piece late found sized h.here
                        (omega (arith, h.here, h.all)))
                  ∙ finish-part base f.size c fs front m in_piece late sized h
                      (rest _ _ (part-IsPartial base f.size c front m in_piece late sized h) more)
                  ∙ ap (λ t. front ++ take m (drop (ps - base) (t ++ stream disk fs))) e
            ]
      ]
    where
      size : length (contents disk f) ≡ f.size
      size = elim full.0 [
        | inl pad ↦ rw pad (length-replicate f.size 0)
        | inr (c, real, found, sized) ↦ rw (real, found) sized
      ]

      more : pe ≤ base + f.size + length (stream disk fs)
      more = omega (arith, enough, size, length-append (contents disk f) (stream disk fs))

  pub read_loop-Finishes :
      (base : ℕ) (fs : List StoredFile) (front : Bytes) (m : ℕ)
      → IsLaidOut base fs
      → IsComplete disk fs
      → IsPartial base front m
      → pe ≤ base + length (stream disk fs)
      → Finishes base fs front m
  read_loop-Finishes base [] front m laid full h enough =
      let nothing : m ≡ 0 = omega (arith, h.here, h.all) in unfold read_loop in rw nothing
  read_loop-Finishes base (f ∷ fs) front m laid full h enough =
      elim (Bool-cases (leb pe f.offset)) [
        | inl q ↦
            let nothing : m ≡ 0 = omega (arith, leb→le pe f.offset q, h.here, h.all) in
            unfold read_loop in rw (q, nothing)
        | inr q ↦
            file-Finishes base f fs front m laid full h enough (leb→lt pe f.offset q)
              (λ front' m' h' e. read_loop-Finishes (base + f.size) fs front' m' laid.1 full.1 h' e)
      ]
