-- ===== src/Sgwu/PfcpServer/FarUpdates.antt =====
-- internal/sgwu/pfcpserver/server.go: the updates of FARs in a modification.
use vectorcore_sgw.Common.{
  ℕ, Bool, true, false, not, ◌&&◌, ◌||◌, Option, none, some, List, [], ◌∷◌, ◌++◌, nat_beq,
  if◌then◌else◌,
}
use vectorcore_sgw.Common.Addr.{Addr, is_valid, same_addr}
use vectorcore_sgw.Common.Bytes.{has_bit}
use vectorcore_sgw.Common.Results.{Result, ok, err, ◌>>=◌}
use vectorcore_sgw.Pfcp.Ie.{Element, find}
use vectorcore_sgw.Pfcp.Types.{
  type_update_forwarding_parameters, type_destination_interface, type_apply_action, type_far_id,
  apply_action_drop,
}
use vectorcore_sgw.Pfcp.Values.{far_id_value, destination_interface_value, apply_action_value}
use vectorcore_sgw.Sgwu.Session.{
  Far, drop_none, drop_release_access_bearers, drop_policy, DropReason,
}
use vectorcore_sgw.Sgwu.PfcpServer.Rules.{
  RuleError, does_not_exist, value_or_zero, need, children_of, valued, has_far, forwards,
  with_outer_header,
}

pub record ParsedFarUpdate : Type 0 where
  pub far_id : ℕ
  pub apply_action : Option Element
  pub ufp_ie : Option Element

unfoldable pub parse_update_fars : List Element → List Far → Result RuleError (List ParsedFarUpdate)
parse_update_fars [] fars = ok []
parse_update_fars (ie ∷ ies) fars = do
  cs ← children_of ie
  id_ie ← need (find cs type_far_id)
  let id = value_or_zero (far_id_value id_ie)
  u ←
      if has_far id fars
      then ok (record {
        far_id = id;
        apply_action = find cs type_apply_action;
        ufp_ie = find cs type_update_forwarding_parameters;
      })
      else err (does_not_exist id)
  more ← parse_update_fars ies fars
  ok (u ∷ more)

pub record EndMarkerEvent : Type 0 where
  pub far_id : ℕ
  pub teid : ℕ
  pub dst_ip : Addr

abbrev is_unset : DropReason → Bool
is_unset drop_none = true
is_unset other = false

-- The switch that sets the drop reason of a FAR whose action becomes `action`.
unfoldable pub drop_reason_after : ℕ → Far → DropReason
drop_reason_after action far =
    if forwards action
    then drop_none
    else if has_bit action apply_action_drop
        && forwards far.apply_action
        && nat_beq far.dest_interface 0
    then drop_release_access_bearers
    else if has_bit action apply_action_drop && is_unset far.drop_reason
    then drop_policy
    else far.drop_reason

unfoldable pub with_action : Option Element → Far → Result RuleError Far
with_action none far = ok far
with_action (some ie) far = valued (apply_action_value ie) >>= λ action.
    ok (record far { apply_action = action; drop_reason = drop_reason_after action far })

abbrev pub with_destination : Far → List Element → Result RuleError Far
with_destination far cs = elim (find cs type_destination_interface) [
  | none ↦ ok far
  | some ie ↦
      valued (destination_interface_value ie) >>= λ d. ok (record far { dest_interface = d })
]

unfoldable pub with_parameters : Option Element → Far → Result RuleError Far
with_parameters none far = ok far
with_parameters (some ie) far = do
  cs ← children_of ie
  routed ← with_destination far cs
  with_outer_header routed cs

-- One FAR under one update.
unfoldable pub update_far : ParsedFarUpdate → Far → Result RuleError Far
unfolding with_action with_parameters
update_far u far = with_action u.apply_action far >>= λ acted. with_parameters u.ufp_ie acted

-- An End Marker goes to a downstream peer that the FAR leaves.
unfoldable pub end_marker : ParsedFarUpdate → Far → Far → List EndMarkerEvent
end_marker u old new =
    if not (nat_beq old.outer_teid 0)
      && is_valid old.outer_ip
      && (not (nat_beq old.outer_teid new.outer_teid) || not (same_addr old.outer_ip new.outer_ip))
    then record { far_id = u.far_id; teid = old.outer_teid; dst_ip = old.outer_ip } ∷ []
    else []

-- The inner loop: the first FAR of the update's identifier is changed.
unfoldable pub update_first :
    ParsedFarUpdate → List Far → Result RuleError (List Far × List EndMarkerEvent)
update_first u [] = err (does_not_exist u.far_id)
update_first u (f ∷ fs) =
    let rest = update_first u fs >>= λ r. ok (f ∷ r.0, r.1) in
    if not (nat_beq f.id u.far_id)
    then rest
    else update_far u f >>= λ new. ok (new ∷ fs, end_marker u f new)

unfoldable pub apply_far_updates_to_candidate :
    List ParsedFarUpdate → List Far → Result RuleError (List Far × List EndMarkerEvent)
apply_far_updates_to_candidate [] fars = ok (fars, [])
apply_far_updates_to_candidate (u ∷ us) fars = do
  first ← update_first u fars
  rest ← apply_far_updates_to_candidate us first.0
  ok (rest.0, first.1 ++ rest.1)
