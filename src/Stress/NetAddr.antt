-- ===== src/Stress/NetAddr.antt =====
-- cmd/sock_stress/utils.go: `parseNetStr`, for the TCP and UDP addresses of tcp.go and udp.go.
use virtsock.Common.{
  ℕ, Bool, true, false, ◌≡◌, refl, not, [], ◌∷◌, ◌++◌, if◌then◌else◌, Text, codes, contains, ◌==◌,
  arith,
}
use virtsock.Strings.{contains-append}

-- `":" + netPort`.
abbrev pub port_suffix : Text
port_suffix = codes ":5303"

-- `sockStr[len(sockStr)-1:] == "]"`.
pub ends_with : Text → ℕ → Bool
ends_with [] c = false
ends_with (x ∷ []) c = x == c
ends_with (x ∷ y ∷ s) c = ends_with (y ∷ s) c

-- `parseNetStr`.
unfoldable pub parse_net_str : Bool → Text → Text
unfolding ends_with
parse_net_str true s =
    if contains s b']'
    then (if ends_with s b']' then s ++ port_suffix else s)
    else (if not (contains s b':') then s ++ port_suffix else s)
parse_net_str false s = if not (contains s b':') then s ++ port_suffix else s

ends_with-append : (s : Text) → ends_with (s ++ port_suffix) b']' ≡ false
unfolding ends_with
ends_with-append [] = refl
ends_with-append (x ∷ []) = refl
ends_with-append (x ∷ y ∷ s) = ends_with-append (y ∷ s)

-- A port is added at most once: what `parseNetStr` returns it leaves as it is.
parse_net_str_idempotent :
    (ipv6 : Bool) (s : Text) → parse_net_str ipv6 (parse_net_str ipv6 s) ≡ parse_net_str ipv6 s
unfolding parse_net_str
parse_net_str_idempotent true s = ground (
  arith,
  ends_with-append s,
  contains-append s port_suffix b']',
  contains-append s port_suffix b':',
)
parse_net_str_idempotent false s = ground (arith, contains-append s port_suffix b':')
