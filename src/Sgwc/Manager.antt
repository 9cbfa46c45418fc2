-- ===== src/Sgwc/Manager.antt =====
-- internal/sgwc/session/manager.go: the store of the control plane's sessions. Sessions are references
-- into a heap, which all indexes share. Each method runs under the manager's mutex. `net.SplitHostPort`,
-- `net.JoinHostPort` with the port 2123, and `netip.Addr.String` are arguments. The checkpoints, which
-- hand copies of sessions to a file, are left out.
pub mod Finders
pub mod Creation
pub mod Indexes
pub mod Indexed
pub mod Invariant
pub mod Steps
pub mod Register
pub mod Outcomes
pub mod Others
pub mod Refines
mod Runs
use vectorcore_sgw.Common.{
  ℕ, ◌+◌, ◌≡◌, ◌↔◌, refl, ap, String, Bool, true, false, not, ◌&&◌, Option, none, some, List, [],
  ◌∷◌, ◌++◌, map, length, keep, ltb, nat_beq, Comparable, number_keys, text_keys, ◌==◌,
  if◌then◌else◌, is_some, Bool-cases, inl, inr,
}
use vectorcore_sgw.Common.Addr.{Addr, no_addr, is_valid}
use vectorcore_sgw.Common.Maps.{lookup, insert, delete}
use vectorcore_sgw.Common.Results.{Result, ok, err}
use vectorcore_sgw.Sgwc.Session.{
  Teid, Session, SessionState, ReconciliationState, PathState, PolicyAction, no_pfcp, no_teid,
}
use vectorcore_sgw.Sgwc.Teid.{Allocator, AllocError, new_allocator, alloc, free}

-- A session as the manager sees it: what identifies it, and in `inner` the fields that its own methods
-- write.
pub record SgwSession : Type 0 where
  pub session_id : String
  pub imsi : String
  pub mme_control_fteid : Teid
  pub sgw_s11_fteid : Teid
  pub pgw_control_fteid : Teid
  pub sgw_s5c_fteid : Teid
  pub default_bearer_id : ℕ
  pub created_at : ℕ
  pub inner : Session

pub record PdnKey : Type 0 where
  pub imsi : String
  pub ebi : ℕ

abbrev pub same_pdn : PdnKey → PdnKey → Bool
same_pdn j k = (j.imsi == k.imsi) && (j.ebi == k.ebi)

pub same_pdn_iff : (j k : PdnKey) → (same_pdn j k ≡ true) ↔ (j ≡ k)
same_pdn_iff j k = (
  λ e. elim (Bool-cases (j.imsi == k.imsi)) [
    | inl same ↦
        let imsi = (text_keys.same_iff j.imsi k.imsi).0 same in
        let ebi = (number_keys.same_iff j.ebi k.ebi).0 (rw same at e) in
        λ i. record { imsi = imsi i; ebi = ebi i }
    | inr other ↦ absurd (cc (rw other at e))
  ],
  λ e.
      rw ((text_keys.same_iff j.imsi k.imsi).1 (ap (λ (p : PdnKey). p.imsi) e))
        ((number_keys.same_iff j.ebi k.ebi).1 (ap (λ (p : PdnKey). p.ebi) e)),
)

instance abbrev pub pdn_keys : Comparable PdnKey
pdn_keys = record { same_iff = same_pdn_iff; same = same_pdn }

abbrev pub pdn_key : SgwSession → PdnKey
pdn_key s = record { imsi = s.imsi; ebi = s.default_bearer_id }

pub record Manager : Type 0 where
  pub heap : ℕ → SgwSession
  pub next : ℕ
  pub by_id : List (String × ℕ)
  pub by_s11 : List (ℕ × List ℕ)
  pub by_s5c : List (ℕ × ℕ)
  pub by_pgw : List (String × List (String × ℕ))
  pub by_imsi : List (String × ℕ)
  pub by_pdn : List (PdnKey × ℕ)
  pub teid_alloc : Allocator

abbrev pub new_manager : (ℕ → SgwSession) → Manager
new_manager heap = record {
  heap = heap;
  next = 0;
  by_id = [];
  by_s11 = [];
  by_s5c = [];
  by_pgw = [];
  by_imsi = [];
  by_pdn = [];
  teid_alloc = new_allocator;
}

-- The slice or map of a missing key is empty.
abbrev pub or_empty {ℓ} : {A : Type ℓ} → Option (List A) → List A
or_empty none = []
or_empty (some xs) = xs

-- `FindAllByS11TEID`
abbrev pub find_all_by_s11_teid : ℕ → Manager → List ℕ
find_all_by_s11_teid t m = or_empty (lookup t m.by_s11)

-- `removeLocked`, the index by S11 TEID: what is left of the slice is stored, or the key deleted.
abbrev pub store_s11 : ℕ → List ℕ → List (ℕ × List ℕ) → List (ℕ × List ℕ)
store_s11 t [] m = delete t m
store_s11 t (y ∷ ys) m = insert t (y ∷ ys) m

abbrev pub filter_s11 : ℕ → ℕ → List ℕ → List (ℕ × List ℕ) → List (ℕ × List ℕ)
filter_s11 t r [] m = m
filter_s11 t r (x ∷ xs) m = store_s11 t (keep (λ c. not (nat_beq c r)) (x ∷ xs)) m

unfoldable pub without_s11 : ℕ → ℕ → List (ℕ × List ℕ) → List (ℕ × List ℕ)
without_s11 t r m = filter_s11 t r (or_empty (lookup t m)) m

-- `removeLocked`, the search for the newest session of an IMSI: one round, and the loop. `newest` is the
-- one found so far.
abbrev pub newer : (ℕ → SgwSession) → String → Option ℕ → ℕ → Option ℕ
newer heap imsi none c = if (heap c).imsi == imsi then some c else none
newer heap imsi (some n) c =
    if ((heap c).imsi == imsi) && ltb (heap n).created_at (heap c).created_at
    then some c
    else some n

unfoldable pub newest_loop : (ℕ → SgwSession) → String → Option ℕ → List (String × ℕ) → Option ℕ
newest_loop heap imsi newest [] = newest
newest_loop heap imsi newest (e ∷ rest) = newest_loop heap imsi (newer heap imsi newest e.1) rest

-- `m[k] == sess`
abbrev pub holds : {K : Type 0} ⦃c : Comparable K⦄ → K → ℕ → List (K × ℕ) → Bool
holds k r m = elim (lookup k m) [ none ↦ false | some x ↦ nat_beq x r ]

-- `removeLocked`, the index by IMSI.
unfoldable pub without_imsi :
    (ℕ → SgwSession) → String → ℕ → List (String × ℕ) → List (String × ℕ) → List (String × ℕ)
without_imsi heap imsi r by_id by_imsi =
    if holds imsi r by_imsi
    then elim (newest_loop heap imsi none by_id) [
      | none ↦ delete imsi by_imsi
      | some n ↦ insert imsi n (delete imsi by_imsi)
    ]
    else by_imsi

module _ (split_host_port : String → Option String) (join_host_port : String → String)
    (addr_text : Addr → String) where
  -- `CanonicalGTPCEndpoint`
  unfoldable pub canonical_gtpc_endpoint : String → String
  canonical_gtpc_endpoint addr =
      let host : String = elim (split_host_port addr) [ none ↦ addr | some h ↦ h ] in
      if addr == "" then "" else if host == "" then "" else join_host_port host

  -- `removePGWLocked`
  unfoldable pub remove_pgw_locked :
      String → String → List (String × List (String × ℕ)) → List (String × List (String × ℕ))
  unfolding canonical_gtpc_endpoint
  remove_pgw_locked pgw_addr session_id by_pgw =
      let canonical = canonical_gtpc_endpoint pgw_addr in
      if canonical == "" then by_pgw else elim (or_empty (lookup canonical by_pgw)) [
        | [] ↦ by_pgw
        | x ∷ xs ↦ elim (delete session_id (x ∷ xs)) [
          | [] ↦ delete canonical by_pgw
          | y ∷ ys ↦ insert canonical (y ∷ ys) by_pgw
        ]
      ]

  -- `removeLocked`, the index by PGW.
  abbrev pub without_pgw :
      SgwSession → List (String × List (String × ℕ)) → List (String × List (String × ℕ))
  without_pgw s by_pgw =
      if not (s.inner.pgw_failure.pgw_addr == "")
      then remove_pgw_locked s.inner.pgw_failure.pgw_addr s.session_id by_pgw
      else if is_valid s.pgw_control_fteid.ipv4
      then remove_pgw_locked (canonical_gtpc_endpoint (addr_text s.pgw_control_fteid.ipv4))
          s.session_id by_pgw
      else by_pgw

  unfoldable pub remove_locked : ℕ → Manager → Manager
  unfolding without_s11 without_imsi remove_pgw_locked
  remove_locked r m =
      let s = m.heap r in
      let by_id = delete s.session_id m.by_id in
      record m {
        by_id = by_id;
        by_s11 = without_s11 s.sgw_s11_fteid.teid r m.by_s11;
        by_s5c =
            if not (nat_beq s.sgw_s5c_fteid.teid 0)
            then delete s.sgw_s5c_fteid.teid m.by_s5c
            else m.by_s5c;
        by_pgw = without_pgw s m.by_pgw;
        by_pdn = if holds (pdn_key s) r m.by_pdn then delete (pdn_key s) m.by_pdn else m.by_pdn;
        by_imsi = without_imsi m.heap s.imsi r by_id m.by_imsi;
      }

  -- `if len(m.byS11[t]) == 0 { m.teidAlloc.Free(t) }`
  abbrev pub freed : ℕ → Manager → Allocator
  freed t m = elim (find_all_by_s11_teid t m) [ [] ↦ free t m.teid_alloc | x ∷ xs ↦ m.teid_alloc ]

  abbrev pub free_unused : ℕ → Manager → Manager
  free_unused t m = record m { teid_alloc = freed t m }

  -- `Delete`
  unfoldable pub delete_session : String → Manager → Manager
  unfolding remove_locked
  delete_session id m = elim (lookup id m.by_id) [
    | none ↦ m
    | some r ↦ free_unused (m.heap r).sgw_s11_fteid.teid (remove_locked r m)
  ]
