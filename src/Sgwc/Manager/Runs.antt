-- ===== src/Sgwc/Manager/Runs.antt =====
-- A concrete manager of internal/sgwc/session/manager.go, and the theorem at it.
use vectorcore_sgw.Common.{
  ℕ, ◌≡◌, refl, true, String, Option, none, some, [], ◌∷◌, number_keys, text_keys,
}
use vectorcore_sgw.Common.Addr.{Addr, no_addr}
use vectorcore_sgw.Common.Results.{ok}
use vectorcore_sgw.Common.Maps.{lookup, insert, delete}
use vectorcore_sgw.Sgwc.Session.{no_teid}
use vectorcore_sgw.Sgwc.Teid.{alloc, alloc_loop, free}
use vectorcore_sgw.Sgwc.Manager.{
  SgwSession, Manager, new_manager, find_all_by_s11_teid, remove_locked, without_s11, without_imsi,
  newest_loop, remove_pgw_locked, canonical_gtpc_endpoint,
}
use vectorcore_sgw.Sgwc.Manager.Creation.{
  fresh_inner, CreateParams, created_session, prepare, create_locked, pick_s11, evict, register,
}
use vectorcore_sgw.Sgwc.Manager.Finders.{list_sessions}
use vectorcore_sgw.Sgwc.Manager.Refines.{Run, prepared, opened, created, Agrees, Run-Agrees}

abbrev unused : SgwSession
unused = record {
  session_id = "";
  imsi = "";
  mme_control_fteid = no_teid;
  sgw_s11_fteid = no_teid;
  pgw_control_fteid = no_teid;
  sgw_s5c_fteid = no_teid;
  default_bearer_id = 0;
  created_at = 0;
  inner = fresh_inner 0 0;
}

-- The host of "host:port", which no step here asks for.
abbrev host_of : String → Option String
host_of addr = none

abbrev with_port : String → String
with_port host = host

abbrev text_of : Addr → String
text_of ip = "10.0.0.9"

abbrev attach : ℕ → ℕ → CreateParams
attach ebi reuse = record {
  imsi = "00101";
  mme_control_fteid = no_teid;
  reuse_sgw_s11_fteid = record { teid = reuse; ipv4 = no_addr };
  default_ebi = ebi;
}

abbrev session : String → ℕ → ℕ → ℕ → SgwSession
session id ebi t now = created_session (attach ebi t) id (record { teid = t; ipv4 = no_addr }) now

-- A first PDN connection, for which a TEID is allocated.
abbrev picked : Manager
picked = record (new_manager (λ r. unused)) {
  teid_alloc = (prepare (some 7 ∷ []) (some "a") 10 (attach 5 0) []).1;
}

picked_session :
    (prepare (some 7 ∷ []) (some "a") 10 (attach 5 0) []).0
    ≡ ok (created_session (attach 5 0) "a" (record { teid = 7; ipv4 = no_addr }) 10)
unfolding prepare pick_s11 alloc alloc_loop lookup insert
picked_session = refl

abbrev first : SgwSession
first = created_session (attach 5 0) "a" (record { teid = 7; ipv4 = no_addr }) 10

-- A second PDN connection of the same subscriber under the same S11 TEID, and the first again.
abbrev attached : Manager
attached = (create_locked host_of with_port text_of first picked).1

abbrev second : Manager
second = (create_locked host_of with_port text_of (session "b" 6 7 11) attached).1

abbrev again : Manager
again = (create_locked host_of with_port text_of (session "c" 5 7 12) second).1

again_sessions : list_sessions again ≡ 1 ∷ 2 ∷ []
unfolding create_locked prepare pick_s11 alloc alloc_loop evict register remove_locked without_s11
    without_imsi newest_loop remove_pgw_locked canonical_gtpc_endpoint lookup insert delete free
again_sessions = refl

again_found : find_all_by_s11_teid 7 again ≡ 1 ∷ 2 ∷ []
unfolding create_locked prepare pick_s11 alloc alloc_loop evict register remove_locked without_s11
    without_imsi newest_loop remove_pgw_locked canonical_gtpc_endpoint lookup insert delete free
again_found = refl

again-Run : Run host_of with_port text_of true again (1 ∷ 2 ∷ [])
unfolding create_locked prepare pick_s11 alloc alloc_loop evict register remove_locked without_s11
    without_imsi newest_loop remove_pgw_locked canonical_gtpc_endpoint lookup insert delete free
again-Run =
    created (session "c" 5 7 12)
      (created (session "b" 6 7 11)
        (created first (prepared (some 7 ∷ []) (some "a") 10 (attach 5 0) (opened (λ r. unused)))
          refl (λ e. refl))
        refl (λ e. refl))
      refl (λ e. refl)

Run-Agrees_example : Agrees host_of with_port text_of true again (1 ∷ 2 ∷ [])
Run-Agrees_example = Run-Agrees host_of with_port text_of again-Run
