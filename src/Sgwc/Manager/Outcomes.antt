-- ===== src/Sgwc/Manager/Outcomes.antt =====
-- internal/sgwc/session/manager.go: the two steps of Create.
use vectorcore_sgw.Common.{
  ℕ, zero, suc, ◌≡◌, refl, ap, subst, ◌∙◌, String, Bool, true, false, not, Option, none, some, List,
  [], ◌∷◌, ◌++◌, keep, nat_beq, number_keys, text_keys, ◌==◌, if◌then◌else◌, Bool-cases,
  Option-cases, inl, inr,
}
use vectorcore_sgw.Common.Addr.{Addr}
use vectorcore_sgw.Common.Maps.{lookup, insert, lookup-insert}
use vectorcore_sgw.Common.Results.{Result, ok, err, Result-cases}
use vectorcore_sgw.Sgwc.Session.{Teid}
use vectorcore_sgw.Sgwc.Teid.{Allocator, AllocError, is_used, alloc_loop, alloc, free}
use vectorcore_sgw.Sgwc.Teid.Laws.{alloc-free}
use vectorcore_sgw.Sgwc.Manager.{SgwSession, pdn_keys, pdn_key, Manager}
use vectorcore_sgw.Sgwc.Manager.Creation.{CreateParams, pick_s11, prepare, evict, create_locked}
use vectorcore_sgw.Sgwc.Manager.Finders.{list_sessions}
use vectorcore_sgw.Sgwc.Manager.Indexed.{IsIndexed, Reserved}
use vectorcore_sgw.Sgwc.Manager.Steps.{Evicted, evict-Evicted}
use vectorcore_sgw.Sgwc.Manager.Register.{
  register-IsIndexed, register-Reserved, sessions_registered,
}

-- What is in use stays in use.
abbrev pub Keeps : Allocator → Allocator → Type 0
Keeps a b = (u : ℕ) → lookup u a ≡ some tt → lookup u b ≡ some tt

insert-Keeps : (t : ℕ) (a : Allocator) → Keeps a (insert t tt a)
insert-Keeps t a u e = lookup-insert a t tt u ∙ either (nat_beq t u)
  where
    either : (b : Bool) → (if b then some tt else lookup u a) ≡ some tt
    either true = refl
    either false = e

alloc_loop-Keeps :
    (n : ℕ) (reads : List (Option ℕ)) (a : Allocator) → Keeps a (alloc_loop n reads a).1
unfolding alloc_loop
alloc_loop-Keeps zero reads a u e = e
alloc_loop-Keeps (suc n) [] a u e = e
alloc_loop-Keeps (suc n) (none ∷ reads) a u e = e
alloc_loop-Keeps (suc n) (some t ∷ reads) a u e =
    let later = alloc_loop-Keeps n reads a u e in
    elim (Bool-cases (nat_beq t 0)) [
      | inl null ↦ rw null later
      | inr other ↦ elim (Bool-cases (is_used t a)) [
        | inl taken ↦ rw (other, taken) later
        | inr new ↦ rw (other, new) (insert-Keeps t a u e)
      ]
    ]

alloc-Keeps : (reads : List (Option ℕ)) (a : Allocator) → Keeps a (alloc reads a).1
unfolding alloc
alloc-Keeps reads a = alloc_loop-Keeps 1024 reads a

-- What the choice of the S11 TEID does to the allocator `a`.
abbrev Picked : Allocator → Result AllocError (Teid × Bool) × Allocator → Type 0
Picked a (err e, b) = Keeps a b
Picked a (ok s11, b) = Keeps a b × ((if s11.1 then free s11.0.teid b else b) ≡ a)

pick_s11-Picked :
    (reads : List (Option ℕ)) (p : CreateParams) (a : Allocator) → Picked a (pick_s11 reads p a)
unfolding pick_s11
pick_s11-Picked reads p a = elim (Bool-cases (nat_beq p.reuse_sgw_s11_fteid.teid 0)) [
  | inr reuse ↦ rw reuse ((λ u e. e), refl)
  | inl new ↦ elim (Result-cases (alloc reads a).0) [
    | inr bad ↦ rw (new, bad.1) (alloc-Keeps reads a)
    | inl good ↦
        let (positive, was_free, used, count, back) = alloc-free reads a good.0 good.1 in
        rw (new, good.1) (alloc-Keeps reads a, back)
  ]
]

-- Before the mutex is taken, no TEID that is in use is given back.
pub prepare-Keeps :
    (reads : List (Option ℕ)) (id : Option String) (now : ℕ) (p : CreateParams) (a : Allocator)
    → Keeps a (prepare reads id now p a).1
unfolding prepare
prepare-Keeps reads id now p a =
    let picked = pick_s11 reads p a in
    let what = pick_s11-Picked reads p a in
    elim (Result-cases picked.0) [
      | inr bad ↦ rw (bad.1, prepare) (subst (λ r. Picked a (r, picked.1)) bad.1 what)
      | inl good ↦
          let (kept, back) = subst (λ r. Picked a (r, picked.1)) good.1 what in
          elim (Option-cases id) [
            | inr named ↦ rw (good.1, prepare, named.1) kept
            | inl unnamed ↦ rw (good.1, prepare, unnamed) (λ u e. ap (λ x. lookup u x) back ∙ e)
          ]
    ]

module _ (split_host_port : String → Option String) (join_host_port : String → String)
    (addr_text : Addr → String) where
  -- What Create does under the mutex: a session more, at the end, and the session of the same PDN
  -- connection gone.
  pub create_locked-IsIndexed :
      (s : SgwSession) (m : Manager)
      → IsIndexed m
      → lookup s.session_id m.by_id ≡ none
      → (let r = create_locked split_host_port join_host_port addr_text s m in
          IsIndexed r.1
          × (list_sessions r.1
              ≡ keep (λ x. not (pdn_key (m.heap x) == pdn_key s)) (list_sessions m)
                ++ (r.0.0 ∷ [])))
  unfolding create_locked
  create_locked-IsIndexed s m h new_id =
      let t = s.sgw_s11_fteid.teid in
      let m1 = (evict split_host_port join_host_port addr_text (pdn_key s) t m).0 in
      let ev : Evicted split_host_port join_host_port addr_text (pdn_key s) t m m1 =
        evict-Evicted split_host_port join_host_port addr_text (pdn_key s) t m h in
      (
        register-IsIndexed split_host_port join_host_port addr_text s m1 ev.indexed
            (ev.still_free s.session_id new_id) ev.pdn_free,
        sessions_registered split_host_port join_host_port addr_text s m1 ev.indexed
              (ev.still_free s.session_id new_id) ev.pdn_free
            ∙ ap (λ rs. rs ++ (m1.next ∷ [])) ev.sessions,
      )

  pub create_locked-Reserved :
      (s : SgwSession) (m : Manager)
      → IsIndexed m
      → lookup s.session_id m.by_id ≡ none
      → lookup s.sgw_s11_fteid.teid m.teid_alloc ≡ some tt
      → Reserved m
      → Reserved (create_locked split_host_port join_host_port addr_text s m).1
  unfolding create_locked
  create_locked-Reserved s m h new_id in_use used =
      let t = s.sgw_s11_fteid.teid in
      let m1 = (evict split_host_port join_host_port addr_text (pdn_key s) t m).0 in
      let ev : Evicted split_host_port join_host_port addr_text (pdn_key s) t m m1 =
        evict-Evicted split_host_port join_host_port addr_text (pdn_key s) t m h in
      register-Reserved split_host_port join_host_port addr_text s m1 ev.indexed
        (ev.still_free s.session_id new_id) ev.pdn_free (ev.still_used in_use) (ev.reserved used)
