-- ===== src/Sgwc/Manager/Others.antt =====
-- internal/sgwc/session/manager.go: the indexes under Delete and under what leaves them alone.
use vectorcore_sgw.Common.{
  ℕ, ◌≡◌, refl, sym, ap, subst, ◌∙◌, String, true, not, Option, none, List, [], ◌∷◌, All-imp, keep,
  keep-same, keep-All, nat_beq, nat_beq_iff, number_keys, text_keys, ◌==◌, if◌then◌else◌, is_some,
  Bool-cases, Option-cases, inl, inr,
}
use vectorcore_sgw.Common.Addr.{Addr}
use vectorcore_sgw.Common.Maps.{lookup, lookup-All}
use vectorcore_sgw.Sgwc.Session.{Session, up}
use vectorcore_sgw.Sgwc.Session.Peers.{set_pgw_path_state}
use vectorcore_sgw.Sgwc.Manager.{
  SgwSession, pdn_keys, pdn_key, Manager, new_manager, delete_session, remove_locked,
  canonical_gtpc_endpoint,
}
use vectorcore_sgw.Sgwc.Manager.Finders.{list_sessions, for_each, register_s5c_teid, register_pgw}
use vectorcore_sgw.Sgwc.Manager.Invariant.{
  remove_locked-IsIndexed, remove_locked-Reserved, sessions_left,
}
use vectorcore_sgw.Sgwc.Manager.Indexed.{IsLive, has_s11, IsEntry, IsIndexed, Reserved}
use vectorcore_sgw.Sgwc.Manager.Steps.{All-IsLive, free_unused-IsIndexed, free_unused-Reserved}

-- The fields by which sessions are indexed, and which no method of a session writes.
pub record SameKeys (x y : SgwSession) : Type 0 where
  pub same_id : x.session_id ≡ y.session_id
  pub same_imsi : x.imsi ≡ y.imsi
  pub same_ebi : x.default_bearer_id ≡ y.default_bearer_id
  pub same_s11 : x.sgw_s11_fteid.teid ≡ y.sgw_s11_fteid.teid

pub touched-IsIndexed :
    (m : Manager) (heap : ℕ → SgwSession)
    → ((x : ℕ) → SameKeys (m.heap x) (heap x))
    → IsIndexed m
    → IsIndexed (record m { heap = heap })
touched-IsIndexed m heap same h =
    let t : Manager = record m { heap = heap } in
    let before : (x : ℕ) → IsLive t x → IsLive m x =
      λ x live. ap (λ i. lookup i m.by_id) (same x).same_id ∙ live in
    let after : (x : ℕ) → IsLive m x → IsLive t x =
      λ x live. ap (λ i. lookup i m.by_id) (sym (same x).same_id) ∙ live in
    let key : (x : ℕ) → pdn_key (heap x) ≡ pdn_key (m.heap x) =
      λ x i. record { imsi = sym (same x).same_imsi i; ebi = sym (same x).same_ebi i } in
    record {
      distinct = h.distinct;
      entries =
          All-imp (IsEntry m) (IsEntry t) (λ e entry. (sym (same e.1).same_id ∙ entry.0, entry.1))
            m.by_id h.entries;
      s11 = λ u.
          h.s11 u
          ∙ keep-same (has_s11 m u) (has_s11 t u) (list_sessions m) (
              All-imp (IsLive m) _ (λ x live. ap (λ i. nat_beq i u) (same x).same_s11)
                (list_sessions m) (All-IsLive m h));
      pdn = λ k x e. let (live, it) = h.pdn k x e in (after x live, key x ∙ it);
      pdn_found = λ x live. ap (λ k. lookup k m.by_pdn) (key x) ∙ h.pdn_found x (before x live);
      imsi = λ i x e. let (live, it) = h.imsi i x e in (after x live, sym (same x).same_imsi ∙ it);
      imsi_found = λ x live.
          ap (λ i. is_some (lookup i m.by_imsi)) (sym (same x).same_imsi)
          ∙ h.imsi_found x (before x live);
    }

pub touched-Reserved :
    (m : Manager) (heap : ℕ → SgwSession)
    → ((x : ℕ) → SameKeys (m.heap x) (heap x))
    → Reserved m
    → Reserved (record m { heap = heap })
touched-Reserved m heap same used x live =
    ap (λ u. lookup u m.teid_alloc) (sym (same x).same_s11)
    ∙ used x (ap (λ i. lookup i m.by_id) (same x).same_id ∙ live)

itself-SameKeys : (x : SgwSession) → SameKeys x x
itself-SameKeys x = record { same_id = refl; same_imsi = refl; same_ebi = refl; same_s11 = refl }

one-SameKeys :
    (f : Session → Session) (r : ℕ) (heap : ℕ → SgwSession) (x : ℕ)
    → SameKeys
        (heap x)
        (if nat_beq x r then record (heap r) { inner = f (heap r).inner } else heap x)
one-SameKeys f r heap x = elim (Bool-cases (nat_beq x r)) [
  | inl same ↦ rw same (
      subst (λ y. SameKeys (heap y) (record (heap r) { inner = f (heap r).inner }))
        (sym ((nat_beq_iff x r).0 same))
        (record { same_id = refl; same_imsi = refl; same_ebi = refl; same_s11 = refl }))
  | inr other ↦ rw other (itself-SameKeys (heap x))
]

pub for_each-SameKeys :
    (f : Session → Session) (rs : List ℕ) (heap : ℕ → SgwSession) (x : ℕ)
    → SameKeys (heap x) (for_each f rs heap x)
unfolding for_each
for_each-SameKeys f [] heap x = itself-SameKeys (heap x)
for_each-SameKeys f (r ∷ rs) heap x =
    let one = one-SameKeys f r heap x in
    let later = for_each-SameKeys f rs _ x in
    record {
      same_id = one.same_id ∙ later.same_id;
      same_imsi = one.same_imsi ∙ later.same_imsi;
      same_ebi = one.same_ebi ∙ later.same_ebi;
      same_s11 = one.same_s11 ∙ later.same_s11;
    }

-- A manager whose other indexes may differ.
others-IsIndexed :
    (m : Manager) (by_s5c : List (ℕ × ℕ)) (by_pgw : List (String × List (String × ℕ)))
    → IsIndexed m
    → IsIndexed (record m { by_s5c = by_s5c; by_pgw = by_pgw })
others-IsIndexed m by_s5c by_pgw h = record {
  distinct = h.distinct;
  entries = h.entries;
  s11 = h.s11;
  pdn = h.pdn;
  pdn_found = h.pdn_found;
  imsi = h.imsi;
  imsi_found = h.imsi_found;
}

pub register_s5c_teid-IsIndexed :
    (id : String) (t : ℕ) (m : Manager)
    → IsIndexed m
    → IsIndexed (register_s5c_teid id t m)
      × (list_sessions (register_s5c_teid id t m) ≡ list_sessions m)
unfolding register_s5c_teid
register_s5c_teid-IsIndexed id t m h = elim (Option-cases (lookup id m.by_id)) [
  | inl absent ↦ rw (absent, register_s5c_teid) (h, refl)
  | inr r ↦ rw (r.1, register_s5c_teid) (others-IsIndexed m _ m.by_pgw h, refl)
]

pub register_s5c_teid-Reserved :
    (id : String) (t : ℕ) (m : Manager) → Reserved m → Reserved (register_s5c_teid id t m)
unfolding register_s5c_teid
register_s5c_teid-Reserved id t m used = elim (Option-cases (lookup id m.by_id)) [
  | inl absent ↦ rw (absent, register_s5c_teid) used
  | inr r ↦ rw (r.1, register_s5c_teid) used
]

pub new_manager-Reserved : (heap : ℕ → SgwSession) → Reserved (new_manager heap)
unfolding lookup
new_manager-Reserved heap r e = absurd (cc e)

pub new_manager-IsIndexed : (heap : ℕ → SgwSession) → IsIndexed (new_manager heap)
unfolding lookup
new_manager-IsIndexed heap = record {
  distinct = tt;
  entries = tt;
  s11 = λ t. refl;
  pdn = λ k r e. absurd (cc e);
  pdn_found = λ r e. absurd (cc e);
  imsi = λ i r e. absurd (cc e);
  imsi_found = λ r e. absurd (cc e);
}

module _ (split_host_port : String → Option String) (join_host_port : String → String)
    (addr_text : Addr → String) where
  pub register_pgw-IsIndexed :
      (id addr : String) (now : ℕ) (m : Manager)
      → IsIndexed m
      → (let m' = register_pgw split_host_port join_host_port addr_text id addr now m in
          IsIndexed m' × (list_sessions m' ≡ list_sessions m))
  unfolding register_pgw
  register_pgw-IsIndexed id addr now m h =
      elim (Bool-cases
        (canonical_gtpc_endpoint split_host_port join_host_port addr_text addr == "")) [
          | inl empty ↦ rw empty (h, refl)
          | inr named ↦ elim (Option-cases (lookup id m.by_id)) [
            | inl absent ↦ rw (named, absent) (h, refl)
            | inr r ↦
                rw (named, r.1, register_pgw)
                  (
                    touched-IsIndexed _ _
                        (for_each-SameKeys
                          (set_pgw_path_state up
                            (canonical_gtpc_endpoint split_host_port join_host_port addr_text addr)
                            now now)
                          (r.0 ∷ []) m.heap)
                        (others-IsIndexed m m.by_s5c _ h),
                    refl,
                  )
          ]
        ]

  pub register_pgw-Reserved :
      (id addr : String) (now : ℕ) (m : Manager)
      → Reserved m
      → Reserved (register_pgw split_host_port join_host_port addr_text id addr now m)
  unfolding register_pgw
  register_pgw-Reserved id addr now m used =
      elim (Bool-cases
        (canonical_gtpc_endpoint split_host_port join_host_port addr_text addr == "")) [
          | inl empty ↦ rw empty used
          | inr named ↦ elim (Option-cases (lookup id m.by_id)) [
            | inl absent ↦ rw (named, absent) used
            | inr r ↦
                rw (named, r.1, register_pgw)
                  (touched-Reserved m _
                    (for_each-SameKeys
                      (set_pgw_path_state up
                        (canonical_gtpc_endpoint split_host_port join_host_port addr_text addr) now
                        now)
                      (r.0 ∷ []) m.heap)
                    used)
          ]
        ]

  pub delete_session-Reserved :
      (id : String) (m : Manager)
      → IsIndexed m
      → Reserved m
      → Reserved (delete_session split_host_port join_host_port addr_text id m)
  unfolding delete_session
  delete_session-Reserved id m h used = elim (Option-cases (lookup id m.by_id)) [
    | inl absent ↦ rw (absent, delete_session) used
    | inr r ↦
        let live : IsLive m r.0 =
          ap (λ i. lookup i m.by_id) (lookup-All (IsEntry m) id m.by_id h.entries r.1).0 ∙ r.1 in
        rw (r.1, delete_session)
          (free_unused-Reserved split_host_port join_host_port addr_text
            (m.heap r.0).sgw_s11_fteid.teid
            (remove_locked split_host_port join_host_port addr_text r.0 m)
            (remove_locked-IsIndexed split_host_port join_host_port addr_text r.0 m h live)
            (remove_locked-Reserved split_host_port join_host_port addr_text r.0 m h live used))
  ]

  -- What Delete does to the list of sessions.
  pub delete_session-IsIndexed :
      (id : String) (m : Manager)
      → IsIndexed m
      → (let m' = delete_session split_host_port join_host_port addr_text id m in
          IsIndexed m'
          × (list_sessions m' ≡ keep (λ x. not ((m.heap x).session_id == id)) (list_sessions m)))
  unfolding delete_session
  delete_session-IsIndexed id m h = elim (Option-cases (lookup id m.by_id)) [
    | inl absent ↦
        rw (absent, delete_session)
          (
            h,
            sym (
                keep-All (λ x. not ((m.heap x).session_id == id)) (list_sessions m)
                  (All-imp (IsLive m) _ (λ x live. elsewhere x live absent) (list_sessions m)
                    (All-IsLive m h))),
          )
    | inr r ↦
        let name : (m.heap r.0).session_id ≡ id =
          (lookup-All (IsEntry m) id m.by_id h.entries r.1).0 in
        let live : IsLive m r.0 = ap (λ i. lookup i m.by_id) name ∙ r.1 in
        rw (r.1, delete_session)
          (
            free_unused-IsIndexed split_host_port join_host_port addr_text
                (m.heap r.0).sgw_s11_fteid.teid
                (remove_locked split_host_port join_host_port addr_text r.0 m)
                (remove_locked-IsIndexed split_host_port join_host_port addr_text r.0 m h live),
            sessions_left split_host_port join_host_port addr_text r.0 m h live
                ∙ keep-same (λ x. not (nat_beq x r.0)) (λ x. not ((m.heap x).session_id == id))
                    (list_sessions m)
                    (All-imp (IsLive m) _ (λ x there. same_name r.0 x name there live)
                      (list_sessions m) (All-IsLive m h)),
          )
  ]
    where
      elsewhere :
          (x : ℕ) → IsLive m x → lookup id m.by_id ≡ none → not ((m.heap x).session_id == id) ≡ true
      elsewhere x live absent = elim (Bool-cases ((m.heap x).session_id == id)) [
        | inr other ↦ rw other refl
        | inl same ↦
            let it = (text_keys.same_iff (m.heap x).session_id id).0 same in
            absurd (cc (ap (λ i. lookup i m.by_id) (sym it) ∙ live, absent))
      ]

      same_name :
          (r x : ℕ)
          → (m.heap r).session_id ≡ id
          → IsLive m x
          → IsLive m r
          → not (nat_beq x r) ≡ not ((m.heap x).session_id == id)
      same_name r x name there live = elim (Bool-cases ((m.heap x).session_id == id)) [
        | inl same ↦
            let it = (text_keys.same_iff (m.heap x).session_id id).0 same ∙ sym name in
            let is_r : x ≡ r = cc (ap (λ i. lookup i m.by_id) (sym it) ∙ there, live) in
            rw (same, (nat_beq_iff x r).1 is_r) refl
        | inr other ↦ elim (Bool-cases (nat_beq x r)) [
          | inr apart ↦ rw (other, apart) refl
          | inl same ↦
              let it : (m.heap x).session_id ≡ id =
                ap (λ y. (m.heap y).session_id) ((nat_beq_iff x r).0 same) ∙ name in
              absurd (cc (other, (text_keys.same_iff (m.heap x).session_id id).1 it))
        ]
      ]
