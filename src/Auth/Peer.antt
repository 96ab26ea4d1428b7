-- ===== src/Auth/Peer.antt =====
-- The part of net/netip that peerTrusted uses, and peerTrusted. Addresses are numbers of 32 or
-- 128 bits; ParseAddrPort, which reads them from text, is a parameter.
use Prim.Native.Nat.{◌/◌, ◌^◌}
use pdbcore.Prelude.{
  ℕ, ◌-◌, ◌*◌, Bool, true, false, List, Option, none, some, Text, ◌==◌, any, if◌then◌else◌,
}

-- netip.Addr; the last argument of v6 tells whether there is a zone.
pub data Addr : Type 0 where
  v4 : ℕ → Addr
  v6 : ℕ → Bool → Addr

-- netip.Prefix
pub data Prefix : Type 0 where
  prefix4 : ℕ → ℕ → Prefix
  prefix6 : ℕ → ℕ → Prefix

-- Addr.Unmap: an IPv4-mapped IPv6 address becomes the IPv4 address.
unfoldable pub unmap : Addr → Addr
unmap (v4 a) = v4 a
unmap (v6 a zone) = if a / 2 ^ 32 == 0xffff then v4 (a - 0xffff * 2 ^ 32) else v6 a zone

-- Prefix.Contains: the leading bits agree, in one family and without a zone.
unfoldable pub contains : Prefix → Addr → Bool
contains (prefix4 p bits) (v4 a) = p / 2 ^ (32 - bits) == a / 2 ^ (32 - bits)
contains (prefix6 p bits) (v6 a false) = p / 2 ^ (128 - bits) == a / 2 ^ (128 - bits)
contains (prefix4 p bits) (v6 a zone) = false
contains (prefix6 p bits) (v6 a true) = false
contains (prefix6 p bits) (v4 a) = false

-- peerTrusted. A nil list trusts everybody; an address that does not parse is trusted by nobody.
unfoldable pub peer_trusted : (Text → Option Addr) → Option (List Prefix) → Text → Bool
unfolding any
peer_trusted parse_addr_port none remote = true
peer_trusted parse_addr_port (some proxies) remote = elim (parse_addr_port remote) [
  | none ↦ false
  | some addr ↦ any (λ p. contains p (unmap addr)) proxies
]
