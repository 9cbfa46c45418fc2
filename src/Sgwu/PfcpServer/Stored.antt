-- ===== src/Sgwu/PfcpServer/Stored.antt =====
-- internal/sgwu/pfcpserver/server.go: the store of sessions after the establishment of one, and after the
-- rollback.
use vectorcore_sgw.Common.{
  ℕ, ◌<◌, ◌≡◌, refl, sym, ap, ◌∙◌, none, inl, inr, Option-cases, number_keys,
}
use vectorcore_sgw.Common.Maps.{lookup, insert, lookup-insert_same, delete-insert_fresh}
use vectorcore_sgw.Common.Results.{ok}
use vectorcore_sgw.Sgwu.Session.{Session, Heap, Store, create, delete_by_cp_seid}
use vectorcore_sgw.Sgwu.PfcpServer.State.{Server, set_at}
use vectorcore_sgw.Sgwu.PfcpServer.Known.{set_at_other, below-nat_beq}

pub old_kept :
    (s : Server) (sess : Session) (r : ℕ)
    → r < s.next_session
    → set_at s.heap s.next_session sess r ≡ s.heap r
old_kept s sess r below =
    set_at_other s.heap s.next_session r sess (below-nat_beq r s.next_session below)

-- The store after `Create` in a heap where the reference is this session.
pub create-stored :
    (heap : Heap) (r : ℕ) (sess : Session) (s s' : Store)
    → heap r ≡ sess
    → create heap r s ≡ ok s'
    → (lookup sess.cp_seid s.by_cp_seid ≡ none)
      × (s' ≡ record s {
        by_cp_seid = insert sess.cp_seid r s.by_cp_seid;
        by_up_seid = insert sess.up_seid r s.by_up_seid;
      })
unfolding create
create-stored heap r sess s s' here e = elim (Option-cases (lookup (heap r).cp_seid s.by_cp_seid)) [
  | inr there ↦ absurd (cc (rw (there.1, create) at e))
  | inl absent ↦ (
    ap (λ (x : Session). lookup x.cp_seid s.by_cp_seid) (sym here) ∙ absent,
    sym (cc (rw (absent, create) at e))
        ∙ ap
            (λ (x : Session). record s {
              by_cp_seid = insert x.cp_seid r s.by_cp_seid;
              by_up_seid = insert x.up_seid r s.by_up_seid;
            })
            here,
  )
]

abbrev pub with_session : ℕ → Session → Store → Store
with_session r sess s = record s {
  by_cp_seid = insert sess.cp_seid r s.by_cp_seid;
  by_up_seid = insert sess.up_seid r s.by_up_seid;
}

-- The rollback takes the new session out of both indexes, which are then as they were.
pub rolled_back :
    (heap : Heap) (r : ℕ) (sess : Session) (s : Store)
    → heap r ≡ sess
    → lookup sess.cp_seid s.by_cp_seid ≡ none
    → lookup sess.up_seid s.by_up_seid ≡ none
    → delete_by_cp_seid heap sess.cp_seid (with_session r sess s) ≡ s
unfolding delete_by_cp_seid
rolled_back heap r sess s here new_cp new_up =
    rw
      (
        delete_by_cp_seid,
        lookup-insert_same sess.cp_seid r s.by_cp_seid,
        here,
        delete-insert_fresh sess.cp_seid r s.by_cp_seid new_cp,
        delete-insert_fresh sess.up_seid r s.by_up_seid new_up,
      )
      refl
