-- ===== src/Uri/Local.antt =====
-- engine/uri.go: the hosts that `isLocalHost` knows.
use aigo.Base.{String, ◌≡◌, refl, false, Option-cases, inl, inr}
use aigo.Base.Cut.{cut}
use aigo.Base.Scan.{◌<>◌}
use aigo.Uri.{is_local_host, before}

-- No host that begins with the IPv6 loopback address is local: the host is cut at the first colon,
-- which stands inside of the brackets, so that the comparison with "[::1]" never succeeds.
pub is_local_host-ipv6 : (rest : String) → is_local_host ("[::1]" <> rest) ≡ false
unfolding is_local_host before cut
is_local_host-ipv6 rest = elim (Option-cases (cut 47 rest)) [
  | inl e ↦ rw e refl
  | inr (p, e) ↦ rw e refl
]
