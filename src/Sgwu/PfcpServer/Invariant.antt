-- ===== src/Sgwu/PfcpServer/Invariant.antt =====
-- internal/sgwu/pfcpserver/server.go: the session store and the heap under every handler.
use vectorcore_sgw.Common.{
  ℕ, String, ◌+◌, ◌^◌, ◌<◌, ◌≤◌, ◌≡◌, sym, ap, subst, ◌∙◌, none, All-imp, arith, number_keys,
}
use vectorcore_sgw.Common.Maps.{lookup}
use vectorcore_sgw.Common.Results.{ok}
use vectorcore_sgw.Sgwu.Session.{
  Session, Store, alloc_seid, create, delete_by_cp_seid, delete_by_up_seid, delete_by_cp_node_key,
  to_delete,
}
use vectorcore_sgw.Sgwu.Session.Reach.{
  Inv, alloc_seid-Inv, create-Inv, delete_by_cp_seid-Inv, delete_by_up_seid-Inv, delete_loop-Inv,
}
use vectorcore_sgw.Sgwu.PfcpServer.State.{Server, set_at}
-- Every session of the store has been made.
use vectorcore_sgw.Sgwu.PfcpServer.Known.{
  IsSound, Inv-Agree, set_at_same, fresh-Agree, kept-Agree, Known-cp, Known-up,
  delete_by_cp_seid-Known, delete_by_up_seid-Known, delete_loop-Known, create-Known,
}

-- A part of the server that the invariant does not read may change.
pub same_sessions :
    (s t : Server)
    → t.heap ≡ s.heap
    → t.store ≡ s.store
    → t.next_session ≡ s.next_session
    → IsSound s
    → IsSound t
same_sessions s t heap store next h = record {
  inv = rw (heap, store) h.inv;
  known = rw (next, store) h.known;
}

pub deleted_by_node-IsSound :
    (s : Server) (key : String)
    → IsSound s
    → IsSound (record s { store = (delete_by_cp_node_key s.heap key s.store).1 })
unfolding delete_by_cp_node_key
deleted_by_node-IsSound s key h = record {
  inv = delete_loop-Inv s.heap (to_delete s.heap key s.store.by_cp_seid) s.store h.inv;
  known =
      delete_loop-Known s.heap s.next_session (to_delete s.heap key s.store.by_cp_seid) s.store
        h.known;
}

pub deleted_by_up-IsSound :
    (s : Server) (k : ℕ)
    → IsSound s
    → IsSound (record s { store = delete_by_up_seid s.heap k s.store })
deleted_by_up-IsSound s k h = record {
  inv = delete_by_up_seid-Inv s.heap k s.store h.inv;
  known = delete_by_up_seid-Known s.heap s.next_session k s.store h.known;
}

pub allocated-IsSound :
    (s : Server)
    → s.store.seid_counter + 1 < 2 ^ 64
    → IsSound s
    → IsSound (record s { store = (alloc_seid s.store).0 })
unfolding alloc_seid
allocated-IsSound s small h = record {
  inv = alloc_seid-Inv s.heap s.store h.inv small;
  known = h.known;
}

-- A new session under a UP-SEID that no session has, stored.
pub created-IsSound :
    (s : Server) (sess : Session) (store : Store)
    → IsSound s
    → lookup sess.up_seid s.store.by_up_seid ≡ none
    → sess.up_seid ≤ s.store.seid_counter
    → create (set_at s.heap s.next_session sess) s.next_session s.store ≡ ok store
    → IsSound (record s {
      heap = set_at s.heap s.next_session sess;
      next_session = s.next_session + 1;
      store = store;
    })
created-IsSound s sess store h fresh small e =
    let r = s.next_session in
    let heap = set_at s.heap r sess in
    let here : heap r ≡ sess = set_at_same s.heap r sess in
    let inv : Inv heap s.store =
      Inv-Agree s.heap heap s.store
        (fresh-Agree s.heap r sess s.store.by_cp_seid (Known-cp r s.store h.known))
        (fresh-Agree s.heap r sess s.store.by_up_seid (Known-up s.heap r s.store h.inv h.known))
        h.inv in
    record {
      inv =
          create-Inv heap r s.store store inv
            (ap (λ (x : Session). lookup x.up_seid s.store.by_up_seid) here ∙ fresh)
            (subst (λ (x : Session). x.up_seid ≤ s.store.seid_counter) (sym here) small) e;
      known =
          create-Known heap (r + 1) r s.store store
            (All-imp (λ (entry : ℕ × ℕ). entry.1 < r) (λ (entry : ℕ × ℕ). entry.1 < r + 1)
              (λ entry below. omega arith) s.store.by_cp_seid h.known)
            (omega arith) e;
    }

-- A session changed under its keys.
pub modified-IsSound :
    (s : Server) (r : ℕ) (v : Session)
    → v.cp_seid ≡ (s.heap r).cp_seid
    → v.up_seid ≡ (s.heap r).up_seid
    → IsSound s
    → IsSound (record s { heap = set_at s.heap r v })
modified-IsSound s r v cp up h = record {
  inv =
      Inv-Agree s.heap (set_at s.heap r v) s.store (kept-Agree s.heap r v s.store.by_cp_seid cp up)
        (kept-Agree s.heap r v s.store.by_up_seid cp up) h.inv;
  known = h.known;
}

pub rolled_back-IsSound :
    (s : Server) (k : ℕ)
    → IsSound s
    → IsSound (record s { store = delete_by_cp_seid s.heap k s.store })
rolled_back-IsSound s k h = record {
  inv = delete_by_cp_seid-Inv s.heap k s.store h.inv;
  known = delete_by_cp_seid-Known s.heap s.next_session k s.store h.known;
}
