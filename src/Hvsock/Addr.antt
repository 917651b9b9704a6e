-- ===== src/Hvsock/Addr.antt =====
-- Hyper-V socket addresses (pkg/hvsock/hvsock.go), and their copies into and out of a
-- `struct sockaddr_hv`, whose 36 bytes are a family, a reserved word and two GUIDs.
use virtsock.Common.{
  ℕ, zero, suc, ◌++◌, ◌∷◌, List, Text, codes, set, get_or, ◌≡◌, refl, ap, ◌∙◌, [], length, arith,
}
use virtsock.Hvsock.Guid.{Guid, IsGuid, blank, from_string}
use virtsock.Hvsock.Guid

-- `GUIDZero` and `GUIDWildcard`, `GUIDLoopback`, `GUIDParent`.
abbrev pub guid_zero : Guid
unfolding from_string
guid_zero = (from_string (codes "00000000-0000-0000-0000-000000000000")).0

abbrev pub guid_loopback : Guid
unfolding from_string
guid_loopback = (from_string (codes "e0e16197-dd56-4a10-9195-5ee7a155a838")).0

abbrev pub guid_parent : Guid
unfolding from_string
guid_parent = (from_string (codes "a42e7cda-d03f-480c-9cc2-a4de20abb878")).0

-- `Addr`.
pub record Addr : Type 0 where
  pub vmid : Guid
  pub service_id : Guid

-- `Addr.String`.
unfoldable pub string : Addr → Text
string a = Guid.string a.vmid ++ (b':' ∷ Guid.string a.service_id)

-- `for i := 0; i < 16; i++ { dst[i] = src[i] }`, with the rounds left and the index.
pub copy_loop : ℕ → ℕ → List ℕ → List ℕ → List ℕ
copy_loop zero i src dst = dst
copy_loop (suc n) i src dst = copy_loop n (suc i) src (set dst i (get_or src i 0))

-- A loop over one of the two GUIDs, into a zeroed array.
unfoldable pub copy_guid : List ℕ → Guid
unfolding copy_loop
copy_guid src = copy_loop 16 0 src blank

pub copy_guid_lem : (g : Guid) → length g ≡ 16 → copy_guid g ≡ g
unfolding copy_guid
copy_guid_lem (a ∷ b ∷ c ∷ d ∷ e ∷ f ∷ g ∷ h ∷ i ∷ j ∷ k ∷ l ∷ m ∷ n ∷ o ∷ p ∷ []) len = refl
copy_guid_lem _ len = absurd (omega arith)

-- Into a structure and out again.
pub copy_guid-copy_guid : (g : Guid) → length g ≡ 16 → copy_guid (copy_guid g) ≡ g
copy_guid-copy_guid g l = ap copy_guid (copy_guid_lem g l) ∙ copy_guid_lem g l
