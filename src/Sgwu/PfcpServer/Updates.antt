-- ===== src/Sgwu/PfcpServer/Updates.antt =====
-- internal/sgwu/pfcpserver/server.go: an update of FARs leaves their identifiers.
use vectorcore_sgw.Common.{
  ◌≡◌, refl, ap, ◌∙◌, Bool, true, false, not, Option, none, some, List, [], ◌∷◌, nat_beq,
  if◌then◌else◌,
}
use vectorcore_sgw.Common.Results.{Result, ok, ◌>>=◌, Yields, Yields-then, Yields-bind}
use vectorcore_sgw.Pfcp.Ie.{Element, find}
use vectorcore_sgw.Pfcp.Values.{
  apply_action_value, outer_header_creation_value, destination_interface_value,
}
use vectorcore_sgw.Sgwu.Session.{Far}
use vectorcore_sgw.Sgwu.PfcpServer.Rules.{with_outer_header, children_of, valued}
use vectorcore_sgw.Sgwu.PfcpServer.FarUpdates.{
  EndMarkerEvent, ParsedFarUpdate, apply_far_updates_to_candidate, update_first, update_far,
  with_action, with_parameters, with_destination, end_marker,
}
use vectorcore_sgw.Sgwu.PfcpServer.Unique.{far_ids}

-- An update leaves the identifier of a FAR.
abbrev SameFar : Far → Far → Type 0
SameFar far new = new.id ≡ far.id

outer_header-SameFar :
    (far : Far) (cs : List Element) (base : Far)
    → SameFar far base
    → Yields (SameFar far) (with_outer_header base cs)
outer_header-SameFar far cs base same =
    elim (find cs 84)
      as (λ o. Yields (SameFar far) (elim o [
        | none ↦ ok base
        | some ie ↦ valued (outer_header_creation_value ie) >>= λ ohc.
            ok (record base { outer_teid = ohc.teid; outer_ip = ohc.ipv4 })
      ])) [
        | none ↦ same
        | some ie ↦
            Yields-bind (SameFar far) (valued (outer_header_creation_value ie)) _ λ ohc. same
      ]

destination-SameFar :
    (far : Far) (cs : List Element) (base : Far)
    → SameFar far base
    → Yields (SameFar far) (with_destination base cs)
destination-SameFar far cs base same =
    elim (find cs 42)
      as (λ o. Yields (SameFar far) (elim o [
        | none ↦ ok base
        | some ie ↦
            valued (destination_interface_value ie) >>= λ d. ok (record base { dest_interface = d })
      ])) [
        | none ↦ same
        | some ie ↦ Yields-bind (SameFar far) (valued (destination_interface_value ie)) _ λ d. same
      ]

action-SameFar :
    (action : Option Element) (far : Far) → Yields (SameFar far) (with_action action far)
unfolding with_action
action-SameFar none far = refl
action-SameFar (some ie) far =
    Yields-bind (SameFar far) (valued (apply_action_value ie)) _ λ action. refl

parameters-SameFar :
    (far : Far) (ufp : Option Element) (base : Far)
    → SameFar far base
    → Yields (SameFar far) (with_parameters ufp base)
unfolding with_parameters
parameters-SameFar far none base same = same
parameters-SameFar far (some ie) base same = Yields-bind (SameFar far) (children_of ie) _ λ cs.
    Yields-then (SameFar far) (SameFar far) (with_destination base cs) _
      (destination-SameFar far cs base same) λ routed kept. outer_header-SameFar far cs routed kept

update_far-SameFar : (u : ParsedFarUpdate) (far : Far) → Yields (SameFar far) (update_far u far)
unfolding update_far
update_far-SameFar u far =
    Yields-then (SameFar far) (SameFar far) (with_action u.apply_action far) _
      (action-SameFar u.apply_action far) λ acted same. parameters-SameFar far u.ufp_ie acted same

abbrev pub SameIds : List Far → List Far × List EndMarkerEvent → Type 0
SameIds fars r = far_ids r.0 ≡ far_ids fars

chosen_either :
    {E A : Type 0} (P : A → Type 0) (b : Bool) (x y : Result E A)
    → Yields P x
    → Yields P y
    → Yields P (if b then x else y)
chosen_either P true x y hx hy = hx
chosen_either P false x y hx hy = hy

update_first-SameIds :
    (u : ParsedFarUpdate) (fars : List Far) → Yields (SameIds fars) (update_first u fars)
unfolding update_first
update_first-SameIds u [] = tt
update_first-SameIds u (f ∷ fs) =
    chosen_either (SameIds (f ∷ fs)) (not (nat_beq f.id u.far_id))
      (update_first u fs >>= λ r. ok (f ∷ r.0, r.1))
      (update_far u f >>= λ new. ok (new ∷ fs, end_marker u f new))
      (Yields-then (SameIds fs) (SameIds (f ∷ fs)) (update_first u fs) _ (update_first-SameIds u fs)
        (λ r same. ap (◌∷◌ f.id) same))
      (Yields-then (SameFar f) (SameIds (f ∷ fs)) (update_far u f) _ (update_far-SameFar u f)
        (λ new same. ap (λ i. i ∷ far_ids fs) same))

pub updates-SameIds :
    (us : List ParsedFarUpdate) (fars : List Far)
    → Yields (SameIds fars) (apply_far_updates_to_candidate us fars)
unfolding apply_far_updates_to_candidate
updates-SameIds [] fars = refl
updates-SameIds (u ∷ us) fars =
    Yields-then (SameIds fars) (SameIds fars) (update_first u fars) _ (update_first-SameIds u fars)
      λ first same.
        Yields-then (SameIds first.0) (SameIds fars) (apply_far_updates_to_candidate us first.0) _
          (updates-SameIds us first.0) λ rest kept. kept ∙ same
