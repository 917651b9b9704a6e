-- ===== src/Hvsock/Guid/RoundTrip.antt =====
-- `String` and `GUIDFromString` are inverse on GUIDs.
use virtsock.Common.{
  ◌<◌, ◌≡◌, refl, ap, sym, ◌∙◌, none, [], ◌∷◌, ◌++◌, arith, Text, length, length-set, All-set,
}
use virtsock.Fmt.{copied, sscanf-sprintf, sscanf_keeps}
use virtsock.Hvsock.Guid.{Guid, IsGuid, blank, scan_format, from_string, string}

-- The directives name each of the sixteen bytes.
copied-scan_format : (g : Guid) → length g ≡ 16 → copied scan_format g blank ≡ g
copied-scan_format (a ∷ b ∷ c ∷ d ∷ e ∷ f ∷ h ∷ i ∷ j ∷ k ∷ l ∷ m ∷ n ∷ o ∷ p ∷ q ∷ []) len = refl
copied-scan_format _ len = absurd (omega arith)

-- Reading back the printed form of a GUID gives that GUID and no error, whatever text follows it.
pub from_string-string :
    (g : Guid) (rest : Text) → IsGuid g → from_string (string g ++ rest) ≡ (g, none)
unfolding from_string string
from_string-string g rest v =
    sscanf-sprintf scan_format g blank rest v.1 ∙ ap (λ x. (x, none)) (copied-scan_format g v.0)

-- Two GUIDs that print alike are the same.
pub string-injective : (g h : Guid) → IsGuid g → IsGuid h → string g ≡ string h → g ≡ h
string-injective g h vg vh e =
    ap (λ r. r.0)
      (sym (from_string-string g [] vg)
        ∙ ap (λ s. from_string (s ++ [])) e
        ∙ from_string-string h [] vh)

-- Whatever the text, and also when an error is returned, the result holds sixteen bytes.
pub from_string-IsGuid : (s : Text) → IsGuid (from_string s).0
unfolding from_string
from_string-IsGuid s =
    sscanf_keeps {P = IsGuid}
      (λ d i b h lt. (length-set d i b ∙ h.0, All-set (λ b. b < 256) d i b h.1 lt)) scan_format
      blank s (refl, omega arith)
