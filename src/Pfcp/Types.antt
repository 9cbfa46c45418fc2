-- ===== src/Pfcp/Types.antt =====
-- internal/pfcp/ie/ie.go: the numbers of element types, causes, interfaces and flags that the code
-- compares with.
use vectorcore_sgw.Common.{ℕ}

abbrev pub type_create_pdr : ℕ
type_create_pdr = 1

abbrev pub type_pdi : ℕ
type_pdi = 2

abbrev pub type_create_far : ℕ
type_create_far = 3

abbrev pub type_forwarding_parameters : ℕ
type_forwarding_parameters = 4

abbrev pub type_created_pdr : ℕ
type_created_pdr = 8

abbrev pub type_update_far : ℕ
type_update_far = 10

abbrev pub type_update_forwarding_parameters : ℕ
type_update_forwarding_parameters = 11

abbrev pub type_remove_pdr : ℕ
type_remove_pdr = 15

abbrev pub type_remove_far : ℕ
type_remove_far = 16

abbrev pub type_cause : ℕ
type_cause = 19

abbrev pub type_source_interface : ℕ
type_source_interface = 20

abbrev pub type_fteid : ℕ
type_fteid = 21

abbrev pub type_precedence : ℕ
type_precedence = 29

abbrev pub type_destination_interface : ℕ
type_destination_interface = 42

abbrev pub type_up_function_features : ℕ
type_up_function_features = 43

abbrev pub type_apply_action : ℕ
type_apply_action = 44

abbrev pub type_pdr_id : ℕ
type_pdr_id = 56

abbrev pub type_fseid : ℕ
type_fseid = 57

abbrev pub type_node_id : ℕ
type_node_id = 60

abbrev pub type_outer_header_creation : ℕ
type_outer_header_creation = 84

abbrev pub type_recovery_time_stamp : ℕ
type_recovery_time_stamp = 96

abbrev pub type_activate_predefined_rules : ℕ
type_activate_predefined_rules = 106

abbrev pub type_far_id : ℕ
type_far_id = 108

abbrev pub type_vector_core_qos_marking : ℕ
type_vector_core_qos_marking = 32768

abbrev pub cause_request_accepted : ℕ
cause_request_accepted = 1

abbrev pub cause_request_rejected : ℕ
cause_request_rejected = 64

abbrev pub cause_no_established_association : ℕ
cause_no_established_association = 72

abbrev pub cause_rule_creation_failure : ℕ
cause_rule_creation_failure = 73

abbrev pub apply_action_drop : ℕ
apply_action_drop = 0x01

abbrev pub apply_action_forw : ℕ
apply_action_forw = 0x02
