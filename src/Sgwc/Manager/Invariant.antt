-- ===== src/Sgwc/Manager/Invariant.antt =====
-- internal/sgwc/session/manager.go: what holds of the indexes, and that taking a session out keeps it.
use vectorcore_sgw.Common.{
  ℕ, ◌≡◌, ◌≢◌, refl, sym, ap, subst, ◌∙◌, String, true, false, not, Option, none, some, List, All,
  All-imp, All-both, keep, keep_swap, keep-keep, nat_beq, nat_beq_iff, number_keys, text_keys, ◌==◌,
  is_some, Bool-cases, Option-cases, inl, inr, arith,
}
use vectorcore_sgw.Common.Addr.{Addr}
use vectorcore_sgw.Common.Maps.{
  lookup, delete, delete-Distinct, delete-All, delete_entry, lookup-delete_kept, lookup-insert,
  insert_entry, lookup-All,
}
use vectorcore_sgw.Sgwc.Manager.{
  PdnKey, pdn_keys, pdn_key, Manager, find_all_by_s11_teid, newest_loop, without_imsi, holds,
  remove_locked,
}
use vectorcore_sgw.Sgwc.Manager.Finders.{list_sessions}
use vectorcore_sgw.Sgwc.Manager.Indexes.{
  without_s11-lookup, entries-found, references-delete, newest_loop-some, newest_loop-none,
  holds-lookup,
}
-- The session is in the manager, under its identifier.
use vectorcore_sgw.Sgwc.Manager.Indexed.{IsLive, has_s11, IsEntry, IsIndexed, Reserved, apart_swap}

module _ (split_host_port : String → Option String) (join_host_port : String → String)
    (addr_text : Addr → String) (r : ℕ) (m : Manager) (h : IsIndexed m) (live : IsLive m r) where
  abbrev removed : Manager
  removed = remove_locked split_host_port join_host_port addr_text r m

  abbrev name : ℕ → String
  name x = (m.heap x).session_id

  only_r : (v : ℕ) → lookup (name r) m.by_id ≡ some v → v ≡ r
  only_r v e = cc (e, live)

  pub IsLive-before : (x : ℕ) → IsLive removed x → IsLive m x
  unfolding remove_locked
  IsLive-before x e = (delete_entry (name r) m.by_id (name x) x e).1

  live_apart : (x : ℕ) → IsLive removed x → x ≢ r
  unfolding remove_locked
  live_apart x e it =
      let apart = (delete_entry (name r) m.by_id (name x) x e).0 in
      cc (apart, (text_keys.same_iff (name r) (name x)).1 (ap name (sym it)))

  IsLive-after : (x : ℕ) → IsLive m x → x ≢ r → IsLive removed x
  unfolding remove_locked
  IsLive-after x e apart = elim (Bool-cases (name r == name x)) [
    | inl same ↦
        let key : name r ≡ name x = (text_keys.same_iff (name r) (name x)).0 same in
        absurd (apart (only_r x (ap (λ i. lookup i m.by_id) key ∙ e)))
    | inr other ↦ lookup-delete_kept (name r) m.by_id (name x) other ∙ e
  ]

  -- The references that are left.
  pub sessions_left : list_sessions removed ≡ keep (λ c. not (nat_beq c r)) (list_sessions m)
  unfolding remove_locked
  sessions_left =
      references-delete name r m.by_id h.distinct
        (All-imp (IsEntry m) (λ (e : String × ℕ). name e.1 ≡ e.0) (λ e k. k.0) m.by_id h.entries)
        only_r

  s11_left : (t : ℕ) → find_all_by_s11_teid t removed ≡ keep (has_s11 m t) (list_sessions removed)
  unfolding remove_locked
  s11_left t =
      let t0 = (m.heap r).sgw_s11_fteid.teid in
      let others = λ (c : ℕ). not (nat_beq c r) in
      without_s11-lookup t0 r m.by_s11 t ∙ elim (Bool-cases (nat_beq t0 t)) [
        | inl same ↦
            let here : t0 ≡ t = (nat_beq_iff t0 t).0 same in
            rw same (
              ap (keep others) (h.s11 t0)
              ∙ keep_swap others (has_s11 m t0) (list_sessions m)
              ∙ ap (λ i. keep (has_s11 m i) (keep others (list_sessions m))) here
              ∙ ap (keep (has_s11 m t)) (sym sessions_left))
        | inr other ↦ rw other (
            h.s11 t
            ∙ sym (
                keep-keep (has_s11 m t) others (list_sessions m)
                  (λ x out. ap (has_s11 m t) (ground (arith, nat_beq_iff x r)) ∙ other))
            ∙ ap (keep (has_s11 m t)) (sym sessions_left))
      ]

  abbrev key : ℕ → PdnKey
  key x = pdn_key (m.heap x)

  -- The session's PDN connection leads to it, so it is taken out of that index.
  pub pdn_gone : removed.by_pdn ≡ delete (key r) m.by_pdn
  unfolding remove_locked
  pdn_gone =
      let it : holds (key r) r m.by_pdn ≡ true =
        holds-lookup (key r) r m.by_pdn (h.pdn_found r live) in
      rw it refl

  pdn_left :
      (k : PdnKey) (x : ℕ) → lookup k removed.by_pdn ≡ some x → IsLive removed x × (key x ≡ k)
  pdn_left k x e =
      let (apart, before) =
        delete_entry (key r) m.by_pdn k x (ap (λ i. lookup k i) (sym pdn_gone) ∙ e) in
      let (there, same) = h.pdn k x before in
      (
        IsLive-after x there
            (λ it. cc (apart, (pdn_keys.same_iff (key r) k).1 (ap key (sym it) ∙ same))),
        same,
      )

  pdn_found_left : (x : ℕ) → IsLive removed x → lookup (key x) removed.by_pdn ≡ some x
  pdn_found_left x e =
      let before = h.pdn_found x (IsLive-before x e) in
      ap (λ i. lookup (key x) i) pdn_gone ∙ elim (Bool-cases (key r == key x)) [
        | inl same ↦
            let it = (pdn_keys.same_iff (key r) (key x)).0 same in
            absurd
              (live_apart x e (cc (ap (λ i. lookup i m.by_pdn) it ∙ before, h.pdn_found r live)))
        | inr other ↦ lookup-delete_kept (key r) m.by_pdn (key x) other ∙ before
      ]

  abbrev imsi_of : ℕ → String
  imsi_of x = (m.heap x).imsi

  abbrev ids_left : List (String × ℕ)
  ids_left = delete (name r) m.by_id

  -- What the index by IMSI is to say of its entries, and of the sessions.
  record ImsiLeft (by_imsi : List (String × ℕ)) : Type 0 where
    leads :
        (i : String) (x : ℕ)
        → lookup i by_imsi ≡ some x
        → (lookup (name x) ids_left ≡ some x) × (imsi_of x ≡ i)
    found :
        (x : ℕ) → lookup (name x) ids_left ≡ some x → is_some (lookup (imsi_of x) by_imsi) ≡ true

  left-IsLive : (x : ℕ) → lookup (name x) ids_left ≡ some x → IsLive removed x
  unfolding remove_locked
  left-IsLive x e = e

  left_after : (x : ℕ) → IsLive m x → x ≢ r → lookup (name x) ids_left ≡ some x
  unfolding remove_locked
  left_after x e apart = IsLive-after x e apart

  -- Without the IMSI of r, the other entries are as before.
  deleted_leads :
      (i : String) (x : ℕ)
      → lookup i (delete (imsi_of r) m.by_imsi) ≡ some x
      → (lookup (name x) ids_left ≡ some x) × (imsi_of x ≡ i)
  deleted_leads i x e =
      let (apart, before) = delete_entry (imsi_of r) m.by_imsi i x e in
      let (there, same) = h.imsi i x before in
      (
        left_after x there
            (λ it. cc (apart, (text_keys.same_iff (imsi_of r) i).1 (ap imsi_of (sym it) ∙ same))),
        same,
      )

  deleted_found :
      (x : ℕ)
      → lookup (name x) ids_left ≡ some x
      → (imsi_of r == imsi_of x) ≡ false
      → is_some (lookup (imsi_of x) (delete (imsi_of r) m.by_imsi)) ≡ true
  deleted_found x e other =
      ap is_some (lookup-delete_kept (imsi_of r) m.by_imsi (imsi_of x) other)
      ∙ h.imsi_found x (IsLive-before x (left-IsLive x e))

  imsi_kept :
      (i : String) (x : ℕ)
      → lookup i m.by_imsi ≡ some x
      → x ≡ r
      → imsi_of x ≡ i
      → holds (imsi_of r) r m.by_imsi ≡ true
  imsi_kept i x e it same =
      holds-lookup (imsi_of r) r m.by_imsi
        (ap (λ j. lookup j m.by_imsi) (ap imsi_of (sym it) ∙ same) ∙ e ∙ ap some it)

  -- Every session that is left and has the IMSI of r.
  candidates :
      All
        (λ (e : String × ℕ).
          imsi_of e.1 ≡ imsi_of r
          → (lookup (name e.1) ids_left ≡ some e.1) × (imsi_of e.1 ≡ imsi_of r))
        ids_left
  candidates =
      All-both (λ (e : String × ℕ). lookup e.0 ids_left ≡ some e.1) (IsEntry m) _
        (λ e there entry same. (ap (λ i. lookup i ids_left) entry.0 ∙ there, same)) ids_left
        (entries-found ids_left (delete-Distinct (name r) m.by_id h.distinct))
        (delete-All (IsEntry m) (name r) m.by_id h.entries)

  imsi_left : ImsiLeft (without_imsi m.heap (imsi_of r) r ids_left m.by_imsi)
  unfolding without_imsi
  imsi_left = elim (Bool-cases (holds (imsi_of r) r m.by_imsi)) [
    | inr other ↦ rw other (record {
      leads = λ i x e.
          let (there, same) = h.imsi i x e in
          (left_after x there (λ it. cc (imsi_kept i x e it same, other)), same);
      found = λ x e. h.imsi_found x (IsLive-before x (left-IsLive x e));
    })
    | inl it ↦ elim (Option-cases (newest_loop m.heap (imsi_of r) none ids_left)) [
      | inl nobody ↦
          let nobody_else = (newest_loop-none m.heap (imsi_of r) ids_left none nobody).1 in
          rw (it, without_imsi, nobody)
            (record {
              leads = deleted_leads;
              found = λ x e.
                  let apart =
                    lookup-All (λ (e : String × ℕ). (imsi_of e.1 == imsi_of r) ≡ false) (name x)
                      ids_left nobody_else e in
                  deleted_found x e (apart_swap (imsi_of x) (imsi_of r) apart);
            })
      | inr n ↦
          let newest =
            newest_loop-some m.heap (imsi_of r)
              (λ k. (lookup (name k) ids_left ≡ some k) × (imsi_of k ≡ imsi_of r)) ids_left none n.0
              (λ k q. absurd (cc q)) candidates n.1 in
          let old = delete (imsi_of r) m.by_imsi in
          rw (it, without_imsi, n.1)
            (record {
              leads = λ i x e. elim (insert_entry (imsi_of r) n.0 old i x e) [
                | inl here ↦
                    subst (λ y. (lookup (name y) ids_left ≡ some y) × (imsi_of y ≡ i)) here.1
                      (newest.0, newest.1 ∙ here.0)
                | inr before ↦ deleted_leads i x before
              ];
              found = λ x e. elim (Bool-cases (imsi_of r == imsi_of x)) [
                | inl same ↦
                    ap is_some (lookup-insert old (imsi_of r) n.0 (imsi_of x)) ∙ rw same refl
                | inr other ↦
                    ap is_some (lookup-insert old (imsi_of r) n.0 (imsi_of x))
                    ∙ rw other (deleted_found x e other)
              ];
            })
    ]
  ]

  -- The indexes without the session.
  pub remove_locked-IsIndexed : IsIndexed removed
  unfolding remove_locked
  remove_locked-IsIndexed = record {
    distinct = delete-Distinct (name r) m.by_id h.distinct;
    entries = delete-All (IsEntry m) (name r) m.by_id h.entries;
    s11 = s11_left;
    pdn = pdn_left;
    pdn_found = pdn_found_left;
    imsi = λ i x e. imsi_left.leads i x e;
    imsi_found = λ x e. imsi_left.found x e;
  }

  pub remove_locked-Reserved : Reserved m → Reserved removed
  unfolding remove_locked
  remove_locked-Reserved used x e = used x (IsLive-before x e)
