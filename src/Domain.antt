-- ===== src/Domain.antt =====
-- `extract_domain` of src/utils.cpp: the host name of a tracker URL.
pub mod Laws
mod Examples
use torrent_builder.Common.{
  ℕ, suc, ◌+◌, ◌-◌, Bytes, List, [], ◌∷◌, Bool, true, false, ltb, leb, ◌==◌, if◌then◌else◌, Option,
  none, some, value_or, is_empty, length, take, drop, codes,
}
use torrent_builder.Text.{find_byte, rfind_byte, find_text, substr}

-- The part of `s` from `start` to the next slash, or to the end.
unfoldable pub authority_from : Bytes → ℕ → Bytes
authority_from s start =
    let rest = drop start s in
    let authority_end = value_or (find_byte b'/' rest) (length rest) in take authority_end rest

-- The part behind the last `@`.
unfoldable pub host_port_of : Bytes → Bytes
host_port_of authority = elim (rfind_byte b'@' authority) [
  | none ↦ authority
  | some at_pos ↦ drop (at_pos + 1) authority
]

-- The host in front of the port, or between the brackets of an IPv6 address.
unfoldable pub host_of : Bytes → Bytes
host_of [] = []
host_of (c ∷ s) =
    let host_port = c ∷ s in
    if c == b'['
    then (elim (find_byte b']' host_port) [
      | none ↦ []
      | some bracket_end ↦ substr host_port 1 (bracket_end - 1)
    ])
    else (elim (find_byte b':' host_port) [
      | none ↦ host_port
      | some colon_pos ↦ take colon_pos host_port
    ])

unfoldable pub extract_domain : Bytes → Bytes
extract_domain tracker_url = elim (find_text (codes "://") tracker_url) [
  | none ↦ []
  | some scheme_end ↦
      if leb (length tracker_url) (scheme_end + 3)
      then []
      else host_of (host_port_of (authority_from tracker_url (scheme_end + 3)))
]
