-- ===== src/Sgwc/Manager/Refines.antt =====
-- internal/sgwc/session/manager.go: the six indexes against a plain list of sessions.
use vectorcore_sgw.Common.{
  ℕ, ◌≡◌, refl, sym, ap, ◌∙◌, String, Bool, true, false, not, Option, none, some, List, [], ◌∷◌,
  ◌++◌, map, All, All-imp, keep, number_keys, text_keys, ◌==◌, is_some, Bool-cases, Option-cases,
  inl, inr,
}
use vectorcore_sgw.Common.Addr.{Addr}
use vectorcore_sgw.Common.Maps.{lookup}
use vectorcore_sgw.Sgwc.Manager.{
  SgwSession, pdn_keys, pdn_key, Manager, new_manager, find_all_by_s11_teid, delete_session,
}
use vectorcore_sgw.Sgwc.Manager.Creation.{CreateParams, prepare, create_locked}
use vectorcore_sgw.Sgwc.Manager.Finders.{
  find, last_such, find_by_s11_teid, find_by_imsi, list_sessions, first_such, register_s5c_teid,
  register_pgw,
}
use vectorcore_sgw.Sgwc.Manager.Indexed.{IsLive, has_s11, IsEntry, IsIndexed, Reserved}
use vectorcore_sgw.Sgwc.Manager.Steps.{All-IsLive, with_allocator-IsIndexed}
use vectorcore_sgw.Sgwc.Manager.Outcomes.{
  prepare-Keeps, create_locked-IsIndexed, create_locked-Reserved,
}
use vectorcore_sgw.Sgwc.Manager.Others.{
  touched-Reserved, register_s5c_teid-Reserved, new_manager-Reserved, register_pgw-Reserved,
  delete_session-Reserved, SameKeys, touched-IsIndexed, register_s5c_teid-IsIndexed,
  new_manager-IsIndexed, register_pgw-IsIndexed, delete_session-IsIndexed,
}

-- A session is found under its identifier as the first of the list that has it.
lookup-first_such :
    (m : Manager) (id : String) (entries : List (String × ℕ))
    → All (IsEntry m) entries
    → lookup id entries
      ≡ first_such (λ s. s.session_id == id) m (map (λ (e : String × ℕ). e.1) entries)
unfolding lookup first_such
lookup-first_such m id [] h = refl
lookup-first_such m id (e ∷ entries) h = elim (Bool-cases (e.0 == id)) [
  | inl same ↦ rw (h.0.0, same) refl
  | inr other ↦ rw (h.0.0, other) (lookup-first_such m id entries h.1)
]

last_such-keep : (p : ℕ → Bool) (xs : List ℕ) → last_such (λ r. true) (keep p xs) ≡ last_such p xs
unfolding last_such
last_such-keep p [] = refl
last_such-keep p (x ∷ xs) = elim (Bool-cases (p x)) [
  | inl kept ↦ elim (Option-cases (last_such p xs)) [
    | inl last ↦ rw (kept, last_such-keep p xs, last, kept) refl
    | inr later ↦ rw (kept, last_such-keep p xs, later.1) refl
  ]
  | inr out ↦ elim (Option-cases (last_such p xs)) [
    | inl last ↦ rw (out, last_such-keep p xs, last, out) refl
    | inr later ↦ rw (out, last_such-keep p xs, later.1) refl
  ]
]

first_such-none :
    (p : SgwSession → Bool) (m : Manager) (rs : List ℕ)
    → All (λ r. p (m.heap r) ≡ false) rs
    → first_such p m rs ≡ none
unfolding first_such
first_such-none p m [] h = refl
first_such-none p m (r ∷ rs) h = rw h.0 (first_such-none p m rs h.1)

module _ (split_host_port : String → Option String) (join_host_port : String → String)
    (addr_text : Addr → String) where
  -- The runs of a manager, each with the plain list of its sessions in the order of their creation, as
  -- sequences of the steps that take the mutex; what Create does before is a step of its own, so other
  -- calls may come in between. The identifier of a new session, which is random, is not in use. In a
  -- careful run a new session's S11 TEID is in use in the allocator when the session is put in, which
  -- holds for a TEID of Alloc, and for one that is reused while a session has it. `touched` is whatever
  -- sessions' own methods write, those called by the Mark and Invalidate methods included.
  pub data Run (careful : Bool) : Manager → List ℕ → Type 0 where
    opened : (heap : ℕ → SgwSession) → Run careful (new_manager heap) []
    prepared :
        {m : Manager} {live : List ℕ} (reads : List (Option ℕ)) (id : Option String) (now : ℕ)
        (p : CreateParams)
        → Run careful m live
        → Run careful (record m { teid_alloc = (prepare reads id now p m.teid_alloc).1 }) live
    created :
        {m : Manager} {live : List ℕ} (s : SgwSession)
        → Run careful m live
        → lookup s.session_id m.by_id ≡ none
        → (careful ≡ true → lookup s.sgw_s11_fteid.teid m.teid_alloc ≡ some tt)
        → Run careful (create_locked split_host_port join_host_port addr_text s m).1 (
            keep (λ x. not (pdn_key (m.heap x) == pdn_key s)) live
            ++ ((create_locked split_host_port join_host_port addr_text s m).0.0 ∷ []))
    deleted :
        {m : Manager} {live : List ℕ} (id : String)
        → Run careful m live
        → Run careful
            (delete_session split_host_port join_host_port addr_text id m)
            (keep (λ x. not ((m.heap x).session_id == id)) live)
    s5c_registered :
        {m : Manager} {live : List ℕ} (id : String) (t : ℕ)
        → Run careful m live
        → Run careful (register_s5c_teid id t m) live
    pgw_registered :
        {m : Manager} {live : List ℕ} (id addr : String) (now : ℕ)
        → Run careful m live
        → Run careful (register_pgw split_host_port join_host_port addr_text id addr now m) live
    touched :
        {m : Manager} {live : List ℕ} (heap : ℕ → SgwSession)
        → ((x : ℕ) → SameKeys (m.heap x) (heap x))
        → Run careful m live
        → Run careful (record m { heap = heap }) live

  -- What the finders answer, in terms of the plain list.
  pub record Agrees (careful : Bool) (m : Manager) (live : List ℕ) : Type 0 where
    pub listed : list_sessions m ≡ live
    pub by_id : (id : String) → find id m ≡ first_such (λ s. s.session_id == id) m live
    pub by_s11 : (t : ℕ) → find_all_by_s11_teid t m ≡ keep (has_s11 m t) live
    pub newest_by_s11 : (t : ℕ) → find_by_s11_teid t m ≡ last_such (has_s11 m t) live
    pub by_imsi :
        (i : String) (r : ℕ) → find_by_imsi i m ≡ some r → IsLive m r × ((m.heap r).imsi ≡ i)
    pub not_by_imsi :
        (i : String) → find_by_imsi i m ≡ none → first_such (λ s. s.imsi == i) m live ≡ none
    pub one_per_pdn :
        (x y : ℕ) → IsLive m x → IsLive m y → pdn_key (m.heap x) ≡ pdn_key (m.heap y) → x ≡ y
    pub teid_in_use : careful ≡ true → Reserved m

  abbrev Sound : Bool → Manager → List ℕ → Type 0
  Sound careful m live = IsIndexed m × (list_sessions m ≡ live) × (careful ≡ true → Reserved m)

  Sound-Agrees :
      (careful : Bool) (m : Manager) (live : List ℕ) → Sound careful m live → Agrees careful m live
  unfolding find_by_s11_teid
  Sound-Agrees careful m live (h, e, used) = record {
    listed = e;
    by_id = λ id.
        lookup-first_such m id m.by_id h.entries ∙ ap (first_such (λ s. s.session_id == id) m) e;
    by_s11 = λ t. h.s11 t ∙ ap (keep (has_s11 m t)) e;
    newest_by_s11 = λ t.
        ap (last_such (λ r. true)) (h.s11 t)
        ∙ last_such-keep (has_s11 m t) (list_sessions m)
        ∙ ap (last_such (has_s11 m t)) e;
    by_imsi = h.imsi;
    not_by_imsi = λ i absent.
        ap (first_such (λ s. s.imsi == i) m) (sym e)
        ∙ first_such-none (λ s. s.imsi == i) m (list_sessions m)
            (All-imp (IsLive m) _ (λ x there. other_imsi i x absent there) (list_sessions m)
              (All-IsLive m h));
    one_per_pdn = λ x y lx ly same.
        cc (ap (λ k. lookup k m.by_pdn) (sym same) ∙ h.pdn_found x lx, h.pdn_found y ly);
    teid_in_use = used;
  }
    where
      other_imsi :
          (i : String) (x : ℕ)
          → lookup i m.by_imsi ≡ none
          → IsLive m x
          → ((m.heap x).imsi == i) ≡ false
      other_imsi i x absent there = elim (Bool-cases ((m.heap x).imsi == i)) [
        | inr other ↦ other
        | inl same ↦
            let it = (text_keys.same_iff (m.heap x).imsi i).0 same in
            absurd (
              cc (
                ap (λ k. is_some (lookup k m.by_imsi)) (sym it) ∙ h.imsi_found x there,
                ap is_some absent,
              ))
      ]

  Run-Sound :
      {careful : Bool} {m : Manager} {live : List ℕ} → Run careful m live → Sound careful m live
  Run-Sound (opened heap) = (new_manager-IsIndexed heap, refl, λ c. new_manager-Reserved heap)
  Run-Sound (prepared {m = m} reads id now p before) =
      let (h, same, used) = Run-Sound before in
      (
        with_allocator-IsIndexed m _ h,
        same,
        λ c x live.
            prepare-Keeps reads id now p m.teid_alloc (m.heap x).sgw_s11_fteid.teid (used c x live),
      )
  Run-Sound (created {m = m} s before new in_use) =
      let (h, same, used) = Run-Sound before in
      let (h', grown) =
        create_locked-IsIndexed split_host_port join_host_port addr_text s m h new in
      (
        h',
        grown
            ∙ ap
                (λ rs.
                  keep (λ x. not (pdn_key (m.heap x) == pdn_key s)) rs
                  ++ ((create_locked split_host_port join_host_port addr_text s m).0.0 ∷ []))
                same,
        λ c.
            create_locked-Reserved split_host_port join_host_port addr_text s m h new (in_use c)
              (used c),
      )
  Run-Sound (deleted {m = m} id before) =
      let (h, same, used) = Run-Sound before in
      let (h', left) = delete_session-IsIndexed split_host_port join_host_port addr_text id m h in
      (
        h',
        left ∙ ap (keep _) same,
        λ c. delete_session-Reserved split_host_port join_host_port addr_text id m h (used c),
      )
  Run-Sound (s5c_registered {m = m} id t before) =
      let (h, same, used) = Run-Sound before in
      let (h', kept) = register_s5c_teid-IsIndexed id t m h in
      (h', kept ∙ same, λ c. register_s5c_teid-Reserved id t m (used c))
  Run-Sound (pgw_registered {m = m} id addr now before) =
      let (h, same, used) = Run-Sound before in
      let (h', kept) =
        register_pgw-IsIndexed split_host_port join_host_port addr_text id addr now m h in
      (
        h',
        kept ∙ same,
        λ c. register_pgw-Reserved split_host_port join_host_port addr_text id addr now m (used c),
      )
  Run-Sound (touched {m = m} heap keys before) =
      let (h, same, used) = Run-Sound before in
      (touched-IsIndexed m heap keys h, same, λ c. touched-Reserved m heap keys (used c))

  -- In every run of a manager in which no new session gets an identifier that is in use, its indexes
  -- answer what a plain list of the sessions, in the order of their creation, would: Find the session of
  -- the identifier, FindAllByS11TEID the sessions of the TEID in that order and FindByS11TEID the last of
  -- them, FindByIMSI a session of the IMSI exactly where there is one; no PDN connection has two
  -- sessions. The list itself grows by Create at its end, while the session of the same PDN connection
  -- leaves it, and loses by Delete what has the identifier. What Create does before it takes the mutex
  -- may lie any number of steps back. In a run in which moreover each new session's S11 TEID is in use
  -- when the session is put in, no S11 TEID of a session is free.
  pub Run-Agrees :
      {careful : Bool} {m : Manager} {live : List ℕ} → Run careful m live → Agrees careful m live
  Run-Agrees {careful} {m} {live} run = Sound-Agrees careful m live (Run-Sound run)
