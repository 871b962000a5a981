-- ===== src/Domain/Laws.antt =====
-- `extract_domain` finds the host in a URL that is put together from its parts.
use torrent_builder.Common.{
  ℕ, suc, ◌+◌, ◌<◌, ◌≡◌, ◌≢◌, refl, sym, ap, ap₂, ◌∙◌, Bytes, [], ◌∷◌, ◌++◌, append_assoc,
  append-nil, false, leb, ◌==◌, Option, none, some, length, drop, codes, Lacks, All-append, arith,
  length-append, take-length-append, drop-length-append, take_all,
}
use native.Mathlib.Numerals.{add-one}
use torrent_builder.Text.Laws.{
  find_byte-append, find_byte-Lacks, rfind_byte-append, rfind_byte-Lacks, find_text-append,
}
use torrent_builder.Domain.{authority_from, host_port_of, host_of, extract_domain}

-- `user@`, or nothing.
abbrev pub user_part : Option Bytes → Bytes
user_part none = []
user_part (some user) = user ++ b'@' ∷ []

-- A byte `c` and a text behind it, or nothing.
abbrev pub behind : ℕ → Option Bytes → Bytes
behind c none = []
behind c (some s) = c ∷ s

abbrev pub OptionLacks : ℕ → Option Bytes → Type 0
OptionLacks c none = Unit
OptionLacks c (some s) = Lacks c s

-- A name that is not empty, begins with no bracket and holds no delimiter of a URL.
abbrev pub IsHost : Bytes → Type 0
IsHost [] = ⊥
IsHost (c ∷ s) = (c ≢ b'[') × Lacks b'/' (c ∷ s) × Lacks b'@' (c ∷ s) × Lacks b':' (c ∷ s)

authority_from-append :
    (front authority : Bytes) (path : Option Bytes)
    → Lacks b'/' authority
    → authority_from (front ++ (authority ++ behind b'/' path)) (length front) ≡ authority
unfolding authority_from
authority_from-append front authority none h =
    rw (drop-length-append, append-nil, find_byte-Lacks b'/' authority h) (take_all authority)
authority_from-append front authority (some s) h =
    rw (drop-length-append, find_byte-append b'/' authority s h)
      (take-length-append authority (b'/' ∷ s))

drop_behind : (p : Bytes) (c : ℕ) (s : Bytes) → drop (length p + 1) (p ++ c ∷ s) ≡ s
drop_behind [] c s = refl
drop_behind (d ∷ p) c s = rw (add-one (suc (length p))) (rw add-one at (drop_behind p c s))

host_port_of-user :
    (u host_port : Bytes) → Lacks b'@' host_port → host_port_of (u ++ b'@' ∷ host_port) ≡ host_port
unfolding host_port_of
host_port_of-user u host_port h =
    rw (rfind_byte-append b'@' u host_port h, host_port_of) (drop_behind u b'@' host_port)

host_port_of-append :
    (user : Option Bytes) (host_port : Bytes)
    → Lacks b'@' host_port
    → host_port_of (user_part user ++ host_port) ≡ host_port
host_port_of-append none host_port h =
    unfold host_port_of in rw (rfind_byte-Lacks b'@' host_port h, host_port_of)
host_port_of-append (some u) host_port h =
    ap host_port_of (append_assoc u (b'@' ∷ []) host_port) ∙ host_port_of-user u host_port h

ne_test : (a b : ℕ) → a ≢ b → (a == b) ≡ false
ne_test a b h = ground arith

host_of-alone : (c : ℕ) (s : Bytes) → c ≢ b'[' → Lacks b':' (c ∷ s) → host_of (c ∷ s) ≡ c ∷ s
unfolding host_of
host_of-alone c s bracket colon = rw (ne_test c b'[' bracket, find_byte-Lacks b':' (c ∷ s) colon)

host_of-append :
    (host : Bytes) (port : Option Bytes) → IsHost host → host_of (host ++ behind b':' port) ≡ host
unfolding host_of
host_of-append [] port h = absurd h
host_of-append (c ∷ s) none (bracket, slash, at_sign, colon) =
    ap host_of (append-nil (c ∷ s)) ∙ host_of-alone c s bracket colon
host_of-append (c ∷ s) (some p) (bracket, slash, at_sign, colon) =
    rw (ne_test c b'[' bracket, find_byte-append b':' (c ∷ s) p colon)
      (take-length-append (c ∷ s) (b':' ∷ p))

IsHost-Lacks : (host : Bytes) → IsHost host → Lacks b'/' host × Lacks b'@' host × (0 < length host)
IsHost-Lacks [] h = absurd h
IsHost-Lacks (c ∷ s) (bracket, slash, at_sign, colon) = (slash, at_sign, omega arith)

behind-Lacks : (c d : ℕ) (o : Option Bytes) → d ≢ c → OptionLacks c o → Lacks c (behind d o)
behind-Lacks c d none n h = tt
behind-Lacks c d (some s) n h = (n, h)

user_part-Lacks : (o : Option Bytes) → OptionLacks b'/' o → Lacks b'/' (user_part o)
user_part-Lacks none h = tt
user_part-Lacks (some u) h = All-append _ u (b'@' ∷ []) h (omega arith)

-- The URL `scheme://user@host:port/path`, where the user, the port and the path may be missing.
abbrev pub url : Bytes → Option Bytes → Bytes → Option Bytes → Option Bytes → Bytes
url scheme user host port path =
    scheme ++ (codes "://" ++ ((user_part user ++ (host ++ behind b':' port)) ++ behind b'/' path))

-- Behind the scheme, `extract_domain` reads the host of the authority.
extract_domain-scheme :
    (scheme rest : Bytes)
    → Lacks b':' scheme
    → 0 < length rest
    → extract_domain (scheme ++ (codes "://" ++ rest))
      ≡ host_of
          (host_port_of (authority_from (scheme ++ (codes "://" ++ rest)) (length scheme + 3)))
unfolding extract_domain
extract_domain-scheme scheme rest h p = rw (find_text-append scheme rest h, extract_domain, long)
  where
    long : leb (length (scheme ++ (codes "://" ++ rest))) (length scheme + 3) ≡ false
    long = ground (arith, length-append scheme (codes "://" ++ rest))

authority_from-scheme :
    (scheme authority : Bytes) (path : Option Bytes)
    → Lacks b'/' authority
    → authority_from
        (scheme ++ (codes "://" ++ (authority ++ behind b'/' path)))
        (length scheme + 3)
      ≡ authority
authority_from-scheme scheme authority path h =
    let e : length (scheme ++ codes "://") ≡ length scheme + 3 =
      omega (arith, length-append scheme (codes "://")) in
    ap₂ authority_from (sym (append_assoc scheme (codes "://") (authority ++ behind b'/' path)))
      (sym e)
    ∙ authority_from-append (scheme ++ codes "://") authority path h

-- The domain of a URL is its host as it is written, whatever the user, the port and the path are, if
-- the scheme holds no colon, the user no slash, the port neither a slash nor `@`, and the host is not
-- empty, does not begin with a bracket and holds no slash, `@` or colon.
pub extract_domain-url :
    (scheme host : Bytes) (user port path : Option Bytes)
    → Lacks b':' scheme
    → IsHost host
    → OptionLacks b'/' user
    → OptionLacks b'/' port
    → OptionLacks b'@' port
    → extract_domain (url scheme user host port path) ≡ host
extract_domain-url scheme host user port path hs hh hu hp hq =
    let (slash, at_sign, some_byte) = IsHost-Lacks host hh in
    let host_port = host ++ behind b':' port in
    let authority = user_part user ++ host_port in
    let plain : Lacks b'/' authority =
      All-append _ (user_part user) host_port (user_part-Lacks user hu) (
        All-append _ host (behind b':' port) slash
          (behind-Lacks b'/' b':' port (omega arith) hp)) in
    let single : Lacks b'@' host_port =
      All-append _ host (behind b':' port) at_sign (behind-Lacks b'@' b':' port (omega arith) hq) in
    let long : 0 < length (authority ++ behind b'/' path) = omega (
      arith,
      length-append authority (behind b'/' path),
      length-append (user_part user) host_port,
      length-append host (behind b':' port),
    ) in
    extract_domain-scheme scheme (authority ++ behind b'/' path) hs long
    ∙ ap (λ a. host_of (host_port_of a)) (authority_from-scheme scheme authority path plain)
    ∙ ap host_of (host_port_of-append user host_port single)
    ∙ host_of-append host port hh
