-- ===== src/Sgwc/Manager/Finders.antt =====
-- internal/sgwc/session/manager.go: what finds sessions, and what writes to many of them.
use vectorcore_sgw.Common.{
  ℕ, ◌+◌, String, Bool, true, not, ◌&&◌, ◌||◌, Option, none, some, List, [], ◌∷◌, map, length, keep,
  nat_beq, number_keys, text_keys, ◌==◌, if◌then◌else◌, is_some,
}
use vectorcore_sgw.Common.Addr.{Addr, is_valid}
use vectorcore_sgw.Common.Maps.{lookup, insert}
use vectorcore_sgw.Sgwc.Session.{
  PathState, up, Session, invalidate_pfcp_binding, invalidate_pfcp_binding_for_peer,
}
use vectorcore_sgw.Sgwc.Session.Peers.{
  set_pgw_path_state, mark_pgw_restart as session_pgw_restart, set_mme_path_state,
  mark_mme_restart as session_mme_restart,
}
use vectorcore_sgw.Sgwc.Manager.{
  SgwSession, Manager, or_empty, find_all_by_s11_teid, canonical_gtpc_endpoint, remove_pgw_locked,
}

abbrev pub find : String → Manager → Option ℕ
find id m = lookup id m.by_id

-- The last element that passes a test: the loops from the end of a slice.
unfoldable pub last_such : (ℕ → Bool) → List ℕ → Option ℕ
last_such p [] = none
last_such p (x ∷ xs) = elim (last_such p xs) [
  | some later ↦ some later
  | none ↦ if p x then some x else none
]

unfoldable pub find_by_s11_teid : ℕ → Manager → Option ℕ
unfolding last_such
find_by_s11_teid t m = last_such (λ r. true) (find_all_by_s11_teid t m)

unfoldable pub find_by_s11_teid_and_bearer : ℕ → ℕ → Manager → Option ℕ
unfolding last_such
find_by_s11_teid_and_bearer t ebi m =
    last_such (λ r. is_some (lookup ebi (m.heap r).inner.bearers)) (find_all_by_s11_teid t m)

unfoldable pub find_by_s11_teid_and_default_bearer : ℕ → ℕ → Manager → Option ℕ
unfolding last_such
find_by_s11_teid_and_default_bearer t ebi m =
    last_such (λ r. nat_beq (m.heap r).default_bearer_id ebi) (find_all_by_s11_teid t m)

abbrev pub find_by_imsi : String → Manager → Option ℕ
find_by_imsi imsi m = lookup imsi m.by_imsi

abbrev pub find_by_s5c_teid : ℕ → Manager → Option ℕ
find_by_s5c_teid t m = lookup t m.by_s5c

-- `List`, in the iteration order of the map
abbrev pub list_sessions : Manager → List ℕ
list_sessions m = map (λ e. e.1) m.by_id

abbrev pub count : Manager → ℕ
count m = length m.by_id

-- The first session in iteration order that passes a test.
unfoldable pub first_such : (SgwSession → Bool) → Manager → List ℕ → Option ℕ
first_such p m [] = none
first_such p m (r ∷ rs) = if p (m.heap r) then some r else first_such p m rs

abbrev pub has_seids : ℕ → ℕ → SgwSession → Bool
has_seids cp_seid up_seid s =
    s.inner.pfcp.established
    && (nat_beq cp_seid 0 || nat_beq s.inner.pfcp.local_fseid.seid cp_seid)
    && (nat_beq up_seid 0 || nat_beq s.inner.pfcp.sgwu_fseid.seid up_seid)

unfoldable pub find_by_pfcp_seid : ℕ → ℕ → Manager → Option ℕ
unfolding first_such
find_by_pfcp_seid cp_seid up_seid m = first_such (has_seids cp_seid up_seid) m (list_sessions m)

unfoldable pub register_s5c_teid : String → ℕ → Manager → Manager
register_s5c_teid id t m = elim (lookup id m.by_id) [
  | none ↦ m
  | some r ↦ record m { by_s5c = insert t r m.by_s5c }
]

-- A method on the fields that a session's own methods write, called on every session of a list.
unfoldable pub for_each : (Session → Session) → List ℕ → (ℕ → SgwSession) → ℕ → SgwSession
for_each f [] heap = heap
for_each f (r ∷ rs) heap =
    for_each f rs
      (λ k. if nat_beq k r then record (heap r) { inner = f (heap r).inner } else heap k)

-- The methods that return whether they have done something, and how many have.
unfoldable pub invalidate_loop :
    (Session → Session × Bool) → List ℕ → (ℕ → SgwSession) → (ℕ → SgwSession) × ℕ
invalidate_loop f [] heap = (heap, 0)
invalidate_loop f (r ∷ rs) heap =
    let one = f (heap r).inner in
    let rest =
      invalidate_loop f rs
        (λ k. if nat_beq k r then record (heap r) { inner = one.0 } else heap k) in
    (rest.0, (if one.1 then 1 else 0) + rest.1)

unfoldable pub invalidate_pfcp_bindings : ℕ → Manager → Manager × ℕ
unfolding invalidate_loop
invalidate_pfcp_bindings now m =
    let r = invalidate_loop (invalidate_pfcp_binding now) (list_sessions m) m.heap in
    (record m { heap = r.0 }, r.1)

unfoldable pub invalidate_pfcp_bindings_for_peer : String → String → ℕ → Manager → Manager × ℕ
unfolding invalidate_loop
invalidate_pfcp_bindings_for_peer name addr now m =
    let r =
      invalidate_loop (invalidate_pfcp_binding_for_peer name addr now) (list_sessions m) m.heap in
    (record m { heap = r.0 }, r.1)

module _ (split_host_port : String → Option String) (join_host_port : String → String)
    (addr_text : Addr → String) where
  abbrev endpoint : String → String
  endpoint addr = canonical_gtpc_endpoint split_host_port join_host_port addr_text addr

  -- `RegisterPGW`
  unfoldable pub register_pgw : String → String → ℕ → Manager → Manager
  unfolding for_each
  register_pgw id pgw_addr now m =
      let canonical = endpoint pgw_addr in
      if canonical == "" then m else elim (lookup id m.by_id) [
        | none ↦ m
        | some r ↦
            let old = (m.heap r).inner.pgw_failure.pgw_addr in
            let by_pgw =
              if not (old == "") && not (old == canonical)
              then remove_pgw_locked split_host_port join_host_port addr_text old id m.by_pgw
              else m.by_pgw in
            record m {
              by_pgw = insert canonical (insert id r (or_empty (lookup canonical by_pgw))) by_pgw;
              heap = for_each (set_pgw_path_state up canonical now now) (r ∷ []) m.heap;
            }
      ]

  -- `FindByPGW`
  unfoldable pub find_by_pgw : String → Manager → List ℕ
  find_by_pgw pgw_addr m =
      if endpoint pgw_addr == ""
      then []
      else map (λ e. e.1) (or_empty (lookup (endpoint pgw_addr) m.by_pgw))

  -- `MarkPGWPathState`
  unfoldable pub mark_pgw_path_state : String → PathState → ℕ → ℕ → Manager → Manager × ℕ
  unfolding find_by_pgw for_each
  mark_pgw_path_state pgw_addr state at now m =
      let sessions = find_by_pgw pgw_addr m in
      (
        record m {
          heap = for_each (set_pgw_path_state state (endpoint pgw_addr) at now) sessions m.heap;
        },
        length sessions,
      )

  -- `MarkPGWRestart`
  unfoldable pub mark_pgw_restart : String → ℕ → ℕ → ℕ → Manager → Manager × ℕ
  unfolding find_by_pgw for_each
  mark_pgw_restart pgw_addr recovery at now m =
      let sessions = find_by_pgw pgw_addr m in
      (
        record m {
          heap = for_each (session_pgw_restart (endpoint pgw_addr) recovery at now) sessions m.heap;
        },
        length sessions,
      )

  abbrev of_mme : String → SgwSession → Bool
  of_mme canonical s =
      is_valid s.mme_control_fteid.ipv4
      && (endpoint (addr_text s.mme_control_fteid.ipv4) == canonical)

  -- `FindByMME`
  unfoldable pub find_by_mme : String → Manager → List ℕ
  find_by_mme mme_addr m =
      if endpoint mme_addr == ""
      then []
      else keep (λ r. of_mme (endpoint mme_addr) (m.heap r)) (list_sessions m)

  -- `MarkMMEPathState`
  unfoldable pub mark_mme_path_state : String → PathState → ℕ → ℕ → Manager → Manager × ℕ
  unfolding find_by_mme for_each
  mark_mme_path_state mme_addr state at now m =
      let sessions = find_by_mme mme_addr m in
      (
        record m {
          heap = for_each (set_mme_path_state state (endpoint mme_addr) at now) sessions m.heap;
        },
        length sessions,
      )

  -- `MarkMMERestart`
  unfoldable pub mark_mme_restart : String → ℕ → ℕ → ℕ → Manager → Manager × ℕ
  unfolding find_by_mme for_each
  mark_mme_restart mme_addr recovery at now m =
      let sessions = find_by_mme mme_addr m in
      (
        record m {
          heap = for_each (session_mme_restart (endpoint mme_addr) recovery at now) sessions m.heap;
        },
        length sessions,
      )

  -- `FindMMERestorationByDDN`
  unfoldable pub find_mme_restoration_by_ddn : String → ℕ → ℕ → Manager → Option ℕ
  unfolding first_such
  find_mme_restoration_by_ddn mme_addr s11_teid seq m =
      let canonical = endpoint mme_addr in
      if (canonical == "") || nat_beq seq 0
      then none
      else first_such
          (λ s.
            (nat_beq s11_teid 0 || nat_beq s.sgw_s11_fteid.teid s11_teid)
            && of_mme canonical s
            && s.inner.mme.ddn_triggered
            && nat_beq s.inner.mme.ddn_sequence seq)
          m (list_sessions m)

  -- `FindMMERestorationByIMSI`
  unfoldable pub find_mme_restoration_by_imsi : String → String → Manager → Option ℕ
  unfolding first_such
  find_mme_restoration_by_imsi mme_addr imsi m =
      let canonical = endpoint mme_addr in
      if (canonical == "") || (imsi == "")
      then none
      else first_such (λ s. (s.imsi == imsi) && of_mme canonical s && s.inner.mme.ddn_triggered) m
          (list_sessions m)
