-- ===== src/Hvsock/Guid/Tests.antt =====
-- Runs of `GUIDFromString`, `String` and `Port` (pkg/hvsock/hvsock.go).
use virtsock.Common.{◌≡◌, refl, codes, some, ok, ◌∷◌, []}
use virtsock.Fmt.{unexpected_eof}
use virtsock.Hvsock.Guid.{from_string, string, template, port}

template_printed : string template ≡ codes "00000000-facb-11e6-bd58-64006a7986d3"
unfolding string from_string
template_printed = refl

short_text :
    from_string (codes "0a")
    ≡ (0 ∷ 0 ∷ 0 ∷ 10 ∷ 0 ∷ 0 ∷ 0 ∷ 0 ∷ 0 ∷ 0 ∷ 0 ∷ 0 ∷ 0 ∷ 0 ∷ 0 ∷ 0 ∷ [], some unexpected_eof)
unfolding from_string
short_text = refl

service_port : port (from_string (codes "3049197C-FACB-11E6-BD58-64006A7986D3")).0 ≡ ok 0x3049197c
unfolding from_string port
service_port = refl
