-- ===== src/Sgwu/PfcpServer/BuiltFars.antt =====
-- internal/sgwu/pfcpserver/server.go: the FARs of a new session, and all its rules, are those that its
-- request describes.
use vectorcore_sgw.Common.{
  ℕ, ◌≡◌, refl, sym, ap, ◌∙◌, subst, Bool, true, false, Option, none, some, List, [], ◌∷◌, inl, inr,
  if◌then◌else◌,
}
use vectorcore_sgw.Common.Bytes.{has_bit}
use vectorcore_sgw.Common.Results.{ok, err, Result-cases}
use vectorcore_sgw.Pfcp.Ie.{Element, find}
use vectorcore_sgw.Pfcp.Values.{
  OuterHeader, far_id_value, destination_interface_value, apply_action_value,
  outer_header_creation_value,
}
use vectorcore_sgw.Pfcp.Messages.{SessionEstablishmentRequest}
use vectorcore_sgw.Sgwu.Session.{Pdr, Far, Heap, Store}
use vectorcore_sgw.Sgwu.PfcpServer.State.{Config, Gives, Gives-bind, Gives-then}
use vectorcore_sgw.Sgwu.PfcpServer.Rules.{value_or_zero, far_of, forwards}
use vectorcore_sgw.Sgwu.PfcpServer.Establish.{
  Draws, children_or_nil, called, validate_all, validate_create_pdr, validate_create_far,
  build_pdrs, build_far, build_fars, routed,
}
use vectorcore_sgw.Sgwu.PfcpServer.Establishment.{establish_rules}
use vectorcore_sgw.Sgwu.PfcpServer.Built.{
  Carried, Carries, Where, PdrsOf, called-Carried, build_pdrs-PdrsOf,
}

-- Where the action forwards, the Destination Interface (42) and the Outer Header Creation (84) of the
-- Forwarding Parameters (4).
pub record RoutedBy (fp : List Element) (f : Far) : Type 0 where
  pub destination :
      Where (find fp 42) (λ x. f.dest_interface ≡ value_or_zero (destination_interface_value x))
  pub outer : Where (find fp 84) (λ x.
      (o : OuterHeader)
      → outer_header_creation_value x ≡ ok o
      → (f.outer_teid ≡ o.teid) × (f.outer_ip ≡ o.ipv4))

-- The FAR that a Create FAR element describes: its FAR ID (108) and Apply Action (44), of which FORW is
-- bit 0x02.
pub record FarOf (ie : Element) (f : Far) : Type 0 where
  pub id : Carries far_id_value (children_or_nil ie) 108 f.id
  pub action : Carries apply_action_value (children_or_nil ie) 44 f.apply_action
  pub routing :
      has_bit f.apply_action 0x02 ≡ true
      → Where (find (children_or_nil ie) 4) (λ fp. RoutedBy (children_or_nil fp) f)

abbrev pub FarsOf : List Element → List Far → Type 0
FarsOf [] [] = Unit
FarsOf (ie ∷ ies) (f ∷ fs) = FarOf ie f × FarsOf ies fs
FarsOf ies fs = ⊥

-- The two steps of `routed`.
abbrev with_interface : Far → Option Element → Far
with_interface far o = elim o [
  | none ↦ far
  | some ie ↦ record far { dest_interface = value_or_zero (destination_interface_value ie) }
]

abbrev with_header : Far → Option Element → Far
with_header far o = elim o [
  | none ↦ far
  | some ie ↦ elim (outer_header_creation_value ie) [
    | err e ↦ far
    | ok ohc ↦ record far { outer_teid = ohc.teid; outer_ip = ohc.ipv4 }
  ]
]

-- What the header leaves, and what both leave.
record SameKeys (f g : Far) : Type 0 where
  same_id : g.id ≡ f.id
  same_action : g.apply_action ≡ f.apply_action

with_header-same :
    (f : Far) (o : Option Element)
    → SameKeys f (with_header f o) × ((with_header f o).dest_interface ≡ f.dest_interface)
with_header-same f none = (record { same_id = refl; same_action = refl }, refl)
with_header-same f (some ie) = elim (Result-cases (outer_header_creation_value ie)) [
  | inl good ↦ rw (good.1, with_header) (record { same_id = refl; same_action = refl }, refl)
  | inr bad ↦ rw (bad.1, with_header) (record { same_id = refl; same_action = refl }, refl)
]

with_interface-SameKeys : (f : Far) (o : Option Element) → SameKeys f (with_interface f o)
with_interface-SameKeys f none = record { same_id = refl; same_action = refl }
with_interface-SameKeys f (some ie) = record { same_id = refl; same_action = refl }

routed-SameKeys : (far : Far) (fp : List Element) → SameKeys far (routed far fp)
routed-SameKeys far fp =
    let first = with_interface-SameKeys far (find fp 42) in
    let second = (with_header-same (with_interface far (find fp 42)) (find fp 84)).0 in
    record {
      same_id = second.same_id ∙ first.same_id;
      same_action = second.same_action ∙ first.same_action;
    }

by_destination :
    (far : Far) (o h : Option Element)
    → Where o (λ x.
      (with_header (with_interface far o) h).dest_interface
      ≡ value_or_zero (destination_interface_value x))
by_destination far none h = tt
by_destination far (some ie) h = (with_header-same (with_interface far (some ie)) h).1

by_outer :
    (f : Far) (h : Option Element)
    → Where h (λ x.
      (ohc : OuterHeader)
      → outer_header_creation_value x ≡ ok ohc
      → ((with_header f h).outer_teid ≡ ohc.teid) × ((with_header f h).outer_ip ≡ ohc.ipv4))
by_outer f none = tt
by_outer f (some ie) = λ ohc e. rw (e, with_header) (refl, refl)

routed-RoutedBy : (far : Far) (fp : List Element) → RoutedBy fp (routed far fp)
routed-RoutedBy far fp = record {
  destination = by_destination far (find fp 42) (find fp 84);
  outer = by_outer (with_interface far (find fp 42)) (find fp 84);
}

-- The FAR with its parameters, if its action forwards.
abbrev made : Far → ℕ → Option Element → Far
made far action o = elim o [
  | none ↦ far
  | some fp ↦ if forwards action then routed far (children_or_nil fp) else far
]

made-SameKeys : (far : Far) (action : ℕ) (o : Option Element) → SameKeys far (made far action o)
made-SameKeys far action none = record { same_id = refl; same_action = refl }
made-SameKeys far action (some fp) = by_test (forwards action)
  where
    by_test : (b : Bool) → SameKeys far (if b then routed far (children_or_nil fp) else far)
    by_test true = routed-SameKeys far (children_or_nil fp)
    by_test false = record { same_id = refl; same_action = refl }

made-routing :
    (far : Far) (action : ℕ) (o : Option Element)
    → forwards action ≡ true
    → Where o (λ fp. RoutedBy (children_or_nil fp) (made far action o))
made-routing far action none h = tt
made-routing far action (some fp) h = by_test (forwards action) h
  where
    by_test :
        (b : Bool)
        → b ≡ true
        → RoutedBy (children_or_nil fp) (if b then routed far (children_or_nil fp) else far)
    by_test true e = routed-RoutedBy far (children_or_nil fp)
    by_test false e = absurd (cc e)

build_far-FarOf : (ie : Element) → Gives (FarOf ie) (build_far ie)
unfolding build_far
build_far-FarOf ie =
    let cs = children_or_nil ie in
    Gives-then (λ r. Carried far_id_value (find cs 108) (value_or_zero r)) (FarOf ie)
      (called (find cs 108) far_id_value) _ (called-Carried far_id_value (find cs 108))
      λ far_id id.
        Gives-then (λ r. Carried apply_action_value (find cs 44) (value_or_zero r)) (FarOf ie)
          (called (find cs 44) apply_action_value) _
          (called-Carried apply_action_value (find cs 44))
          λ action act.
            let far : Far = far_of (value_or_zero far_id) (value_or_zero action) in
            let same : SameKeys far (made far (value_or_zero action) (find cs 4)) =
              made-SameKeys far (value_or_zero action) (find cs 4) in
            record {
              id = subst (Carried far_id_value (find cs 108)) (sym same.same_id) id;
              action = subst (Carried apply_action_value (find cs 44)) (sym same.same_action) act;
              routing = λ h.
                  made-routing far (value_or_zero action) (find cs 4)
                    (ap (λ a. has_bit a 0x02) (sym same.same_action) ∙ h);
            }

build_fars-FarsOf : (ies : List Element) → Gives (FarsOf ies) (build_fars ies)
unfolding build_fars
build_fars-FarsOf [] = tt
build_fars-FarsOf (ie ∷ ies) =
    Gives-then (FarOf ie) (FarsOf (ie ∷ ies)) (build_far ie) _ (build_far-FarOf ie) λ first one.
      Gives-then (FarsOf ies) (FarsOf (ie ∷ ies)) (build_fars ies) _ (build_fars-FarsOf ies)
        λ rest more. (one, more)

-- The rules of the request, and the Created PDR elements that go into the answer.
abbrev pub RulesOf :
    Heap → Store → SessionEstablishmentRequest → List Pdr × List Element × List Far → Type 0
RulesOf heap store req r = PdrsOf heap store req.create_pdrs r.0 r.1 × FarsOf req.create_fars r.2

pub establish_rules-RulesOf :
    (cfg : Config) (heap : Heap) (store : Store) (req : SessionEstablishmentRequest) (draws : Draws)
    → Gives (RulesOf heap store req) (establish_rules cfg heap store req draws)
unfolding establish_rules
establish_rules-RulesOf cfg heap store req draws =
    let P = RulesOf heap store req in
    Gives-bind P (validate_all validate_create_pdr req.create_pdrs) _ λ u.
      Gives-bind P (validate_all validate_create_far req.create_fars) _ λ v.
        Gives-then (λ (r : List Pdr × List Element). PdrsOf heap store req.create_pdrs r.0 r.1) P
          (build_pdrs cfg heap store req.create_pdrs draws) _
          (build_pdrs-PdrsOf cfg heap store req.create_pdrs draws)
          λ pdrs p.
            Gives-then (FarsOf req.create_fars) P (build_fars req.create_fars) _
              (build_fars-FarsOf req.create_fars) λ fars f. (p, f)
