-- ===== src/Sgwc/Manager/Indexed.antt =====
-- internal/sgwc/session/manager.go: what the six indexes of a manager say of its sessions.
use vectorcore_sgw.Common.{
  ℕ, ◌≡◌, ◌<◌, sym, String, Bool, true, false, some, All, keep, nat_beq, number_keys, text_keys,
  ◌==◌, is_some, Bool-cases, inl, inr,
}
use vectorcore_sgw.Common.Maps.{lookup, Distinct}
use vectorcore_sgw.Sgwc.Manager.{PdnKey, pdn_keys, pdn_key, Manager, find_all_by_s11_teid}
use vectorcore_sgw.Sgwc.Manager.Finders.{list_sessions}

-- The session is in the manager, under its identifier.

-- The session is in the manager, under its identifier.
abbrev pub IsLive : Manager → ℕ → Type 0
IsLive m r = lookup (m.heap r).session_id m.by_id ≡ some r

abbrev pub has_s11 : Manager → ℕ → ℕ → Bool
has_s11 m t r = nat_beq (m.heap r).sgw_s11_fteid.teid t

-- The entry of a reference that has been made, under the identifier of its session.
abbrev pub IsEntry : Manager → String × ℕ → Type 0
IsEntry m e = ((m.heap e.1).session_id ≡ e.0) × (e.1 < m.next)

pub record IsIndexed (m : Manager) : Type 0 where
  pub distinct : Distinct m.by_id
  pub entries : All (IsEntry m) m.by_id
  -- The index by S11 TEID has the sessions of each TEID, in the order of their creation.
  pub s11 : (t : ℕ) → find_all_by_s11_teid t m ≡ keep (has_s11 m t) (list_sessions m)
  -- The index by PDN connection has each session, and no other.
  pub pdn :
      (k : PdnKey) (r : ℕ) → lookup k m.by_pdn ≡ some r → IsLive m r × (pdn_key (m.heap r) ≡ k)
  pub pdn_found : (r : ℕ) → IsLive m r → lookup (pdn_key (m.heap r)) m.by_pdn ≡ some r
  -- The index by IMSI has a session for each IMSI of which there is one.
  pub imsi : (i : String) (r : ℕ) → lookup i m.by_imsi ≡ some r → IsLive m r × ((m.heap r).imsi ≡ i)
  pub imsi_found : (r : ℕ) → IsLive m r → is_some (lookup (m.heap r).imsi m.by_imsi) ≡ true

-- The S11 TEID of each session is in use.
abbrev pub Reserved : Manager → Type 0
Reserved m = (r : ℕ) → IsLive m r → lookup (m.heap r).sgw_s11_fteid.teid m.teid_alloc ≡ some tt

pub apart_swap : (x y : String) → (x == y) ≡ false → (y == x) ≡ false
apart_swap x y apart = elim (Bool-cases (y == x)) [
  | inl same ↦
      absurd (cc (apart, (text_keys.same_iff x y).1 (sym ((text_keys.same_iff y x).0 same))))
  | inr other ↦ other
]
