-- ===== src/Sgwu/PfcpServer/Built.antt =====
-- internal/sgwu/pfcpserver/server.go: the rules of a new session are those that its request describes.
use vectorcore_sgw.Common.{
  ℕ, ◌≡◌, ◌≢◌, refl, sym, ap, subst, Bool, true, false, Option, none, some, List, [], ◌∷◌, ◌++◌,
  inl, inr, Option-cases, if◌then◌else◌,
}
use vectorcore_sgw.Common.Results.{Result, ok, err, Result-cases}
use vectorcore_sgw.Pfcp.Ie.{Element, find}
use vectorcore_sgw.Pfcp.Types.{type_pdi, type_far_id, type_pdr_id}
use vectorcore_sgw.Pfcp.Values.{
  ValueError, Fteid, pdr_id_value, far_id_value, source_interface_value, fteid_pfcp_value,
  new_pdr_id, new_fteid_v4, new_created_pdr,
}
use vectorcore_sgw.Sgwu.Session.{Pdr, Heap, Store, alloc_teid, find_by_local_teid}
use vectorcore_sgw.Sgwu.Session.Teids.{alloc_teid_fresh}
use vectorcore_sgw.Sgwu.PfcpServer.State.{
  done, refused, Config, Gives, Gives-bind, Gives-then, Gives-imp,
}
use vectorcore_sgw.Sgwu.PfcpServer.Rules.{value_or_zero, precedence_of, pdr_of}
use vectorcore_sgw.Sgwu.PfcpServer.Establish.{
  Refusal, rule_failure, Draws, children_or_nil, called, chooses, quality, precedence_in,
  local_gtpu_ip_for_source, choose_fteid, build_pdr, build_pdrs,
}

-- There is such an element, and the number is its value, 0 where it has none that can be read.
abbrev pub Carried : (Element → Result ValueError ℕ) → Option Element → ℕ → Type 0
Carried f none v = ⊥
Carried f (some ie) v = v ≡ value_or_zero (f ie)

-- The number is the value of the first child of the type.
abbrev pub Carries : (Element → Result ValueError ℕ) → List Element → ℕ → ℕ → Type 0
Carries f cs t v = Carried f (find cs t) v

-- If there is such an element, then this of it.
abbrev pub Where : Option Element → (Element → Type 0) → Type 0
Where none P = Unit
Where (some ie) P = P ie

module _ (heap : Heap) (store : Store) where
  -- A TEID that no session of the store has, and the Created PDR element that tells it.
  pub record Chosen (p : Pdr) (created : List Element) : Type 0 where
    pub not_zero : p.local_teid ≢ 0
    pub unused : find_by_local_teid heap p.local_teid store ≡ none
    pub fteid : Element
    pub address : new_fteid_v4 p.local_teid p.local_ip ≡ some fteid
    pub told : created ≡ new_created_pdr (new_pdr_id p.id) fteid ∷ []

  abbrev pub Given : Pdr → List Element → Type 0
  Given p created = (p.local_teid ≡ 0) × (created ≡ [])

  -- A PDR gets a TEID where its F-TEID is to be chosen, and otherwise none.
  abbrev pub TeidOf : Option Element → Pdr → List Element → Type 0
  TeidOf none p created = Given p created
  TeidOf (some ie) p created =
      (r : Fteid × Bool) × (fteid_pfcp_value ie ≡ ok r)
      × (if r.1 then Chosen p created else Given p created)

  -- The PDR, and the Created PDR elements, that a Create PDR element describes: its PDR ID (56), FAR ID
  -- (108) and Precedence (29), and the Source Interface (20) and F-TEID (21) of its PDI (2).
  pub record PdrOf (ie : Element) (p : Pdr) (created : List Element) : Type 0 where
    pub id : Carries pdr_id_value (children_or_nil ie) 56 p.id
    pub far : Carries far_id_value (children_or_nil ie) 108 p.far_id
    pub precedence : Where (find (children_or_nil ie) 29) (λ x. p.precedence ≡ precedence_of x)
    pub pdi : Element
    pub pdi_there : find (children_or_nil ie) 2 ≡ some pdi
    pub source : Carries source_interface_value (children_or_nil pdi) 20 p.source_interface
    pub teid : TeidOf (find (children_or_nil pdi) 21) p created

  -- The PDRs of the elements, in their order, and all the Created PDR elements.
  abbrev pub PdrsOf : List Element → List Pdr → List Element → Type 0
  PdrsOf [] [] created = created ≡ []
  PdrsOf (ie ∷ ies) (p ∷ ps) created =
      (here : List Element) × (rest : List Element) × (created ≡ here ++ rest)
      × PdrOf ie p here
      × PdrsOf ies ps rest
  PdrsOf ies ps created = ⊥

pub called-Carried :
    (f : Element → Result ValueError ℕ) (o : Option Element)
    → Gives {E = Refusal} (λ r. Carried f o (value_or_zero r)) (called o f)
called-Carried f none = tt
called-Carried f (some ie) = refl

called-there :
    (o : Option Element)
    → Gives {E = Refusal}
        (λ cs. (x : Element) × (o ≡ some x) × (cs ≡ children_or_nil x))
        (called o children_or_nil)
called-there none = tt
called-there (some ie) = (ie, refl, refl)

-- What `chooses` finds.
abbrev ChoosesIs : Option Element → Bool → Type 0
ChoosesIs none b = b ≡ false
ChoosesIs (some ie) b = (r : Fteid × Bool) × (fteid_pfcp_value ie ≡ ok r) × (b ≡ r.1)

chooses-ChoosesIs : (pdi : List Element) → Gives (ChoosesIs (find pdi 21)) (chooses pdi)
chooses-ChoosesIs pdi = by_element (find pdi 21)
  where
    by_element :
        (o : Option Element)
        → Gives (ChoosesIs o) (elim o [
          | none ↦ done false
          | some ie ↦ elim (fteid_pfcp_value ie) [ err e ↦ refused rule_failure | ok r ↦ done r.1 ]
        ])
    by_element none = refl
    by_element (some ie) = elim (Result-cases (fteid_pfcp_value ie)) [
      | inl good ↦ rw good.1 (good.0, good.1, refl)
      | inr bad ↦ rw bad.1 tt
    ]

precedence_in-Where :
    (o : Option Element)
    → Where o (λ x. (elim o [ none ↦ 0 | some p ↦ precedence_of p ]) ≡ precedence_of x)
precedence_in-Where none = tt
precedence_in-Where (some ie) = refl

-- A PDR that differs in its local F-TEID only.
abbrev SameBut : Pdr → Pdr → Type 0
SameBut pdr p = p ≡ record pdr { local_teid = p.local_teid; local_ip = p.local_ip }

module _ (cfg : Config) (heap : Heap) (store : Store) where
  abbrev IsChosen : Pdr → Pdr × List Element × Draws → Type 0
  IsChosen pdr r = SameBut pdr r.0 × Chosen heap store r.0 r.1

  choose_fteid-IsChosen :
      (pdr : Pdr) (draws : Draws)
      → Gives (IsChosen pdr) (choose_fteid rule_failure cfg heap store pdr draws)
  unfolding choose_fteid
  choose_fteid-IsChosen pdr [] = tt
  choose_fteid-IsChosen pdr (draw ∷ draws) = elim (Option-cases (alloc_teid heap draw store)) [
    | inl short ↦ rw (short, choose_fteid) tt
    | inr teid ↦ elim (Option-cases (local_gtpu_ip_for_source cfg pdr.source_interface)) [
      | inl no_ip ↦ rw (teid.1, choose_fteid, no_ip) tt
      | inr ip ↦ elim (Option-cases (new_fteid_v4 teid.0 ip.0)) [
        | inl broken ↦ rw (teid.1, choose_fteid, ip.1, broken) tt
        | inr fteid ↦
            let (not_zero, unused) = (alloc_teid_fresh heap draw store).0 teid.0 teid.1 in
            rw (teid.1, choose_fteid, ip.1, fteid.1)
              (
                refl,
                record {
                  not_zero = not_zero;
                  unused = unused;
                  fteid = fteid.0;
                  address = fteid.1;
                  told = refl;
                },
              )
      ]
    ]
  ]

  abbrev IsPdr : Element → Pdr × List Element × Draws → Type 0
  IsPdr ie r = PdrOf heap store ie r.0 r.1

  -- The last step, with what has been read of the element.
  chosen-IsPdr :
      (ie pdi : Element) (pdr : Pdr) (draws : Draws) (b : Bool)
      → pdr.local_teid ≡ 0
      → ((p : Pdr) (created : List Element)
          → SameBut pdr p
          → TeidOf heap store (find (children_or_nil pdi) 21) p created
          → PdrOf heap store ie p created)
      → ChoosesIs (find (children_or_nil pdi) 21) b
      → Gives
          (IsPdr ie)
          (if b then choose_fteid rule_failure cfg heap store pdr draws else done (pdr, [], draws))
  chosen-IsPdr ie pdi pdr draws b unset describe c =
      by_choice b (find (children_or_nil pdi) 21) c describe
    where
      by_choice :
          (b : Bool) (o : Option Element)
          → ChoosesIs o b
          → ((p : Pdr) (created : List Element)
              → SameBut pdr p
              → TeidOf heap store o p created
              → PdrOf heap store ie p created)
          → Gives (IsPdr ie) (
              if b
              then choose_fteid rule_failure cfg heap store pdr draws
              else done (pdr, [], draws))
      by_choice true none c describe = absurd (cc c)
      by_choice false none c describe = describe pdr [] refl (unset, refl)
      by_choice true (some x) (r, e, is) describe =
          Gives-imp (IsChosen pdr) (IsPdr ie) (choose_fteid rule_failure cfg heap store pdr draws)
            (choose_fteid-IsChosen pdr draws)
            (λ q (same, chosen). describe q.0 q.1 same (r, e, rw (← is) chosen))
      by_choice false (some x) (r, e, is) describe =
          describe pdr [] refl (r, e, rw (← is) (unset, refl))

  build_pdr-IsPdr :
      (ie : Element) (draws : Draws) → Gives (IsPdr ie) (build_pdr cfg heap store ie draws)
  unfolding build_pdr
  build_pdr-IsPdr ie draws =
      let cs = children_or_nil ie in
      let P = IsPdr ie in
      Gives-then (λ r. Carried pdr_id_value (find cs 56) (value_or_zero r)) P
        (called (find cs type_pdr_id) pdr_id_value) _ (called-Carried pdr_id_value (find cs 56))
        λ pdr_id id.
          Gives-then (λ r. Carried far_id_value (find cs 108) (value_or_zero r)) P
            (called (find cs type_far_id) far_id_value) _
            (called-Carried far_id_value (find cs 108))
            λ far_id far.
              Gives-then
                (λ inner. (x : Element) × (find cs 2 ≡ some x) × (inner ≡ children_or_nil x)) P
                (called (find cs type_pdi) children_or_nil) _ (called-there (find cs 2))
                λ inner (pdi, there, is).
                  Gives-then (λ r. Carried source_interface_value (find inner 20) (value_or_zero r))
                    P (called (find inner 20) source_interface_value) _
                    (called-Carried source_interface_value (find inner 20))
                    λ source from. Gives-bind P (quality cs) _ λ qos.
                      Gives-then (ChoosesIs (find inner 21)) P (chooses inner) _
                        (chooses-ChoosesIs inner)
                        λ choose c.
                          chosen-IsPdr ie pdi
                            (pdr_of (value_or_zero pdr_id) (value_or_zero far_id)
                              (value_or_zero source) (precedence_in cs) qos)
                            draws choose refl
                            (λ p created same teid. record {
                              id =
                                  subst (Carried pdr_id_value (find cs 56))
                                    (sym (ap (λ (x : Pdr). x.id) same)) id;
                              far =
                                  subst (Carried far_id_value (find cs 108))
                                    (sym (ap (λ (x : Pdr). x.far_id) same)) far;
                              precedence =
                                  subst (λ n. Where (find cs 29) (λ x. n ≡ precedence_of x))
                                    (sym (ap (λ (x : Pdr). x.precedence) same))
                                    (precedence_in-Where (find cs 29));
                              pdi = pdi;
                              pdi_there = there;
                              source =
                                  subst
                                    (Carried source_interface_value (find (children_or_nil pdi) 20))
                                    (sym (ap (λ (x : Pdr). x.source_interface) same))
                                    (rw (← is) from);
                              teid = teid;
                            })
                            (rw (← is) c)

  pub build_pdrs-PdrsOf :
      (ies : List Element) (draws : Draws)
      → Gives
          (λ (r : List Pdr × List Element). PdrsOf heap store ies r.0 r.1)
          (build_pdrs cfg heap store ies draws)
  unfolding build_pdrs
  build_pdrs-PdrsOf [] draws = refl
  build_pdrs-PdrsOf (ie ∷ ies) draws =
      let All = λ (r : List Pdr × List Element). PdrsOf heap store (ie ∷ ies) r.0 r.1 in
      Gives-then (IsPdr ie) All (build_pdr cfg heap store ie draws) _ (build_pdr-IsPdr ie draws)
        λ first one.
          Gives-then (λ (r : List Pdr × List Element). PdrsOf heap store ies r.0 r.1) All
            (build_pdrs cfg heap store ies first.2) _ (build_pdrs-PdrsOf ies first.2)
            λ rest more. (first.1, rest.1, refl, one, more)
