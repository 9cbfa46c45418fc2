-- ===== src/Sgwu/Session.antt =====
-- internal/sgwu/session/store.go: the store of PFCP sessions and its two indexes. A `*Session` is a
-- reference, a number, and the heap says which session is there; both indexes hold references, so a
-- session that is changed in place changes under both. Each method runs under the store's mutex.
pub mod Indexes
pub mod Coherence
pub mod Deletes
pub mod Reach
pub mod Teids
pub mod Runs
use vectorcore_sgw.Common.{
  ℕ, suc, ◌+◌, ◌%◌, ◌^◌, String, Bool, true, false, not, ◌&&◌, Option, none, some, List, [], ◌∷◌,
  map, length, number_keys, text_keys, ◌==◌, nat_beq, if◌then◌else◌, any,
}
use vectorcore_sgw.Common.Addr.{Addr}
use vectorcore_sgw.Common.Maps.{lookup, insert, delete}
use vectorcore_sgw.Common.Results.{Result, ok, err}

pub record Pdr : Type 0 where
  pub id : ℕ
  pub precedence : ℕ
  pub source_interface : ℕ
  pub local_teid : ℕ
  pub local_ip : Addr
  pub far_id : ℕ
  pub ebi : ℕ
  pub qci : ℕ
  pub qos_valid : Bool

pub data DropReason : Type 0 where
  drop_none drop_release_access_bearers drop_bearer_deleted drop_session_deleted drop_policy
        drop_inactivity :
      DropReason

pub record Far : Type 0 where
  pub id : ℕ
  pub apply_action : ℕ
  pub dest_interface : ℕ
  pub outer_teid : ℕ
  pub outer_ip : Addr
  pub drop_reason : DropReason

pub record Session : Type 0 where
  pub cp_seid : ℕ
  pub up_seid : ℕ
  pub cp_node_key : String
  pub pdrs : List Pdr
  pub fars : List Far

-- The sessions behind the references.
abbrev pub Heap : Type 0
Heap = ℕ → Session

pub record Store : Type 0 where
  pub by_cp_seid : List (ℕ × ℕ)
  pub by_up_seid : List (ℕ × ℕ)
  pub seid_counter : ℕ

abbrev pub new_store : Store
new_store = record { by_cp_seid = []; by_up_seid = []; seid_counter = 0 }

-- The atomic counter wraps at 64 bits.
unfoldable pub alloc_seid : Store → Store × ℕ
alloc_seid s = let next = (s.seid_counter + 1) % 2 ^ 64 in (record s { seid_counter = next }, next)

pub data StoreError : Type 0 where
  already_exists : ℕ → StoreError
  not_found : ℕ → StoreError

abbrev pub find_by_cp_seid : ℕ → Store → Option ℕ
find_by_cp_seid cp_seid s = lookup cp_seid s.by_cp_seid

abbrev pub find_by_up_seid : ℕ → Store → Option ℕ
find_by_up_seid up_seid s = lookup up_seid s.by_up_seid

abbrev pub all : Store → List ℕ
all s = map (λ entry. entry.1) s.by_cp_seid

abbrev pub count : Store → ℕ
count s = length s.by_cp_seid

-- The inner loop over the PDRs of one session.
unfoldable pub find_pdr : ℕ → List Pdr → Option Pdr
find_pdr teid [] = none
find_pdr teid (pdr ∷ rest) = if nat_beq pdr.local_teid teid then some pdr else find_pdr teid rest

module _ (heap : Heap) where
  unfoldable pub create : ℕ → Store → Result StoreError Store
  create sess s = elim (lookup (heap sess).cp_seid s.by_cp_seid) [
    | some old ↦ err (already_exists (heap sess).cp_seid)
    | none ↦ ok (record s {
      by_cp_seid = insert (heap sess).cp_seid sess s.by_cp_seid;
      by_up_seid = insert (heap sess).up_seid sess s.by_up_seid;
    })
  ]

  unfoldable pub update : ℕ → Store → Result StoreError Store
  update sess s = elim (lookup (heap sess).cp_seid s.by_cp_seid) [
    | none ↦ err (not_found (heap sess).cp_seid)
    | some old ↦
        let kept =
          if not (nat_beq (heap old).up_seid (heap sess).up_seid)
          then delete (heap old).up_seid s.by_up_seid
          else s.by_up_seid in
        ok (record s {
          by_cp_seid = insert (heap sess).cp_seid sess s.by_cp_seid;
          by_up_seid = insert (heap sess).up_seid sess kept;
        })
  ]

  unfoldable pub delete_by_cp_seid : ℕ → Store → Store
  delete_by_cp_seid cp_seid s = elim (lookup cp_seid s.by_cp_seid) [
    | none ↦ s
    | some sess ↦ record s {
      by_cp_seid = delete cp_seid s.by_cp_seid;
      by_up_seid = delete (heap sess).up_seid s.by_up_seid;
    }
  ]

  unfoldable pub delete_by_up_seid : ℕ → Store → Store
  delete_by_up_seid up_seid s = elim (lookup up_seid s.by_up_seid) [
    | none ↦ s
    | some sess ↦ record s {
      by_cp_seid = delete (heap sess).cp_seid s.by_cp_seid;
      by_up_seid = delete up_seid s.by_up_seid;
    }
  ]

  -- The first loop of `DeleteByCPNodeKey`.
  unfoldable pub to_delete : String → List (ℕ × ℕ) → List ℕ
  to_delete node_key [] = []
  to_delete node_key ((cp_seid, sess) ∷ rest) =
      if (heap sess).cp_node_key == node_key
      then cp_seid ∷ to_delete node_key rest
      else to_delete node_key rest

  -- The second loop: the deleted sessions, and the store after it.
  unfoldable pub delete_loop : List ℕ → Store → List ℕ × Store
  unfolding delete_by_cp_seid
  delete_loop [] s = ([], s)
  delete_loop (cp_seid ∷ rest) s =
      let (more, after) = delete_loop rest (delete_by_cp_seid cp_seid s) in
      elim (lookup cp_seid s.by_cp_seid) [ none ↦ (more, after) | some sess ↦ (sess ∷ more, after) ]

  unfoldable pub delete_by_cp_node_key : String → Store → List ℕ × Store
  unfolding to_delete delete_loop
  delete_by_cp_node_key node_key s = delete_loop (to_delete node_key s.by_cp_seid) s

  unfoldable pub count_by_cp_node_key : String → Store → ℕ
  unfolding to_delete
  count_by_cp_node_key node_key s = length (to_delete node_key s.by_cp_seid)

  unfoldable pub find_loop : ℕ → List (ℕ × ℕ) → Option (ℕ × Pdr)
  find_loop teid [] = none
  find_loop teid ((cp_seid, sess) ∷ rest) = elim (find_pdr teid (heap sess).pdrs) [
    | some pdr ↦ some (sess, pdr)
    | none ↦ find_loop teid rest
  ]

  unfoldable pub find_by_local_teid : ℕ → Store → Option (ℕ × Pdr)
  find_by_local_teid teid s = if nat_beq teid 0 then none else find_loop teid s.by_cp_seid

  unfoldable pub local_teid_in_use : ℕ → Store → Bool
  local_teid_in_use teid s =
      any (λ entry. any (λ pdr. nat_beq pdr.local_teid teid) (heap entry.1).pdrs) s.by_cp_seid

  -- `randoms` is what `crypto/rand` yields, as 32-bit numbers; the loop takes them until one serves.
  -- `none`: they have run out.
  unfoldable pub alloc_teid : List ℕ → Store → Option ℕ
  alloc_teid [] s = none
  alloc_teid (v ∷ randoms) s =
      if not (nat_beq v 0) && not (local_teid_in_use v s) then some v else alloc_teid randoms s
