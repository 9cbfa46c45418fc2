-- ===== src/Sgwu/Session/Runs.antt =====
-- Concrete stores of internal/sgwu/session/store.go, and the theorems at them.
use vectorcore_sgw.Common.{
  ℕ, ◌+◌, ◌≡◌, ◌≢◌, refl, true, not, ◌&&◌, none, some, [], ◌∷◌, length, All, is_some, number_keys,
  text_keys, ◌==◌, nat_beq, arith, if◌then◌else◌,
}
use vectorcore_sgw.Common.Addr.{no_addr}
use vectorcore_sgw.Common.Maps.{lookup, insert, delete}
use vectorcore_sgw.Common.Results.{err}
use vectorcore_sgw.Sgwu.Session.{
  Pdr, Session, Heap, Store, new_store, alloc_seid, already_exists, create, count,
  delete_by_cp_seid, to_delete, delete_loop, delete_by_cp_node_key, find_pdr, find_loop,
  find_by_local_teid, local_teid_in_use, alloc_teid,
}
use vectorcore_sgw.Sgwu.Session.Coherence.{Coherent}
use vectorcore_sgw.Sgwu.Session.Reach.{Reach, Inv, created, established, reached-Inv}
use vectorcore_sgw.Sgwu.Session.Deletes.{spared, delete_by_cp_node_key_exact}
use vectorcore_sgw.Sgwu.Session.Teids.{
  Refused, find_by_local_teid-local_teid_in_use, alloc_teid_fresh,
}

abbrev a_pdr : Pdr
a_pdr = record {
  id = 1;
  precedence = 10;
  source_interface = 0;
  local_teid = 77;
  local_ip = no_addr;
  far_id = 1;
  ebi = 5;
  qci = 9;
  qos_valid = true;
}

abbrev first_session : Session
first_session = record {
  cp_seid = 900;
  up_seid = 1;
  cp_node_key = "ipv4:10.0.0.1";
  pdrs = a_pdr ∷ [];
  fars = [];
}

abbrev second_session : Session
second_session = record first_session {
  cp_seid = 901;
  up_seid = 2;
  cp_node_key = "ipv4:10.0.0.2";
  pdrs = [];
}

-- References 0 and 1; no other is used.
abbrev sessions : Heap
sessions r = if nat_beq r 0 then first_session else second_session

abbrev one_session : Store
one_session = record { by_cp_seid = (900, 0) ∷ []; by_up_seid = (1, 0) ∷ []; seid_counter = 1 }

abbrev two_sessions : Store
two_sessions = record {
  by_cp_seid = (900, 0) ∷ (901, 1) ∷ [];
  by_up_seid = (1, 0) ∷ (2, 1) ∷ [];
  seid_counter = 2;
}

two_reached : Reach sessions two_sessions
unfolding create alloc_seid lookup insert
two_reached =
    established {s = one_session} 1 (established {s = new_store} 0 created (omega arith) refl refl)
      (omega arith) refl refl

create_twice : create sessions 0 two_sessions ≡ err (already_exists 900)
unfolding create lookup
create_twice = refl

reached-Inv_example : Inv sessions two_sessions
reached-Inv_example = reached-Inv sessions two_reached

two_Coherent : Coherent sessions two_sessions
two_Coherent = (reached-Inv sessions two_reached).coherent

delete_node_one :
    delete_by_cp_node_key sessions "ipv4:10.0.0.1" two_sessions
    ≡ (0 ∷ [], record { by_cp_seid = (901, 1) ∷ []; by_up_seid = (2, 1) ∷ []; seid_counter = 2 })
unfolding delete_by_cp_node_key to_delete delete_loop delete_by_cp_seid lookup delete
delete_node_one = refl

delete_by_cp_node_key_exact_example :
    ((k : ℕ)
      → lookup k (delete_by_cp_node_key sessions "ipv4:10.0.0.1" two_sessions).1.by_cp_seid
        ≡ spared sessions "ipv4:10.0.0.1" (lookup k two_sessions.by_cp_seid))
    × ((u : ℕ)
        → lookup u (delete_by_cp_node_key sessions "ipv4:10.0.0.1" two_sessions).1.by_up_seid
          ≡ spared sessions "ipv4:10.0.0.1" (lookup u two_sessions.by_up_seid))
    × All
        (λ r. ((sessions r).cp_node_key == "ipv4:10.0.0.1") ≡ true)
        (delete_by_cp_node_key sessions "ipv4:10.0.0.1" two_sessions).0
    × (length (delete_by_cp_node_key sessions "ipv4:10.0.0.1" two_sessions).0
          + count (delete_by_cp_node_key sessions "ipv4:10.0.0.1" two_sessions).1
        ≡ 2)
delete_by_cp_node_key_exact_example =
    delete_by_cp_node_key_exact sessions "ipv4:10.0.0.1" two_sessions two_Coherent

find_77 : find_by_local_teid sessions 77 two_sessions ≡ some (0, a_pdr)
unfolding find_by_local_teid find_loop find_pdr
find_77 = refl

find_by_local_teid-local_teid_in_use_example :
    is_some (find_by_local_teid sessions 77 two_sessions)
    ≡ (not (nat_beq 77 0) && local_teid_in_use sessions 77 two_sessions)
find_by_local_teid-local_teid_in_use_example =
    find_by_local_teid-local_teid_in_use sessions 77 two_sessions

-- 0 is reserved and 77 is in use.
alloc_78 : alloc_teid sessions (0 ∷ 77 ∷ 78 ∷ []) two_sessions ≡ some 78
unfolding alloc_teid local_teid_in_use
alloc_78 = refl

alloc_teid_fresh_example :
    ((v : ℕ)
      → alloc_teid sessions (0 ∷ 77 ∷ 78 ∷ []) two_sessions ≡ some v
      → (v ≢ 0) × (find_by_local_teid sessions v two_sessions ≡ none))
    × (alloc_teid sessions (0 ∷ 77 ∷ 78 ∷ []) two_sessions ≡ none
        → All (Refused sessions two_sessions) (0 ∷ 77 ∷ 78 ∷ []))
alloc_teid_fresh_example = alloc_teid_fresh sessions (0 ∷ 77 ∷ 78 ∷ []) two_sessions
