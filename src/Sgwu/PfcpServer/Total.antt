-- ===== src/Sgwu/PfcpServer/Total.antt =====
-- internal/sgwu/pfcpserver/server.go: a Session Establishment Request whose PDRs name their FARs is dealt
-- with to the end.
use vectorcore_sgw.Common.{
  ℕ, zero, suc, ◌≡◌, refl, subst, Bool, true, false, some, List, [], ◌∷◌, length, All, is_some, inl,
  inr, Bool-cases, Option-cases, nat_beq, if◌then◌else◌,
}
use vectorcore_sgw.Common.Addr.{Addr, no_addr, ip4, ip6, is_ip4}
use vectorcore_sgw.Common.Results.{ok, Result-cases}
use vectorcore_sgw.Pfcp.Ie.{Element, find}
use vectorcore_sgw.Pfcp.Types.{
  type_pdi, type_fteid, type_source_interface, type_pdr_id, type_far_id,
}
use vectorcore_sgw.Pfcp.Values.{fteid_pfcp_value, new_fteid_v4, new_fseid}
use vectorcore_sgw.Sgwu.Session.{Pdr, Heap, Store, alloc_teid}
use vectorcore_sgw.Sgwu.PfcpServer.State.{done, Config}
use vectorcore_sgw.Sgwu.PfcpServer.Rules.{qos_of}
use vectorcore_sgw.Sgwu.PfcpServer.Establish.{
  Refusal, rule_failure, Draws, has_type, children_or_nil, called, chooses, quality,
  validate_create_pdr, local_gtpu_ip_for_source, choose_fteid, build_pdr, build_pdrs,
}
-- The attempt comes to a value of which P holds, or to an error.
use vectorcore_sgw.Sgwu.PfcpServer.Settles.{
  Settles, Settles-bind, Any, called-Settles, called_children-Settles, ValidPdr,
  validate_create_pdr-ValidPdr,
}

-- The addresses of the server are IPv4, which New sees to.
pub record HasIp4 (cfg : Config) : Type 0 where
  pub access : is_ip4 cfg.access_ip ≡ true
  pub core : is_ip4 cfg.core_ip ≡ true
  pub local : is_ip4 cfg.local_ip ≡ true

new_fteid_v4-some :
    (teid : ℕ) (ip : Addr) → is_ip4 ip ≡ true → is_some (new_fteid_v4 teid ip) ≡ true
unfolding new_fteid_v4
new_fteid_v4-some teid no_addr h = refl
new_fteid_v4-some teid (ip4 a b c d) h = refl
new_fteid_v4-some teid (ip6 bytes) h = cc

pub new_fseid-some : (seid : ℕ) (ip : Addr) → is_ip4 ip ≡ true → is_some (new_fseid seid ip) ≡ true
unfolding new_fseid
new_fseid-some seid no_addr h = refl
new_fseid-some seid (ip4 a b c d) h = refl
new_fseid-some seid (ip6 bytes) h = cc

-- A Create PDR that names its FAR.
abbrev pub NamesFar : Element → Type 0
NamesFar ie = has_type (children_or_nil ie) type_far_id ≡ true

module _ (cfg : Config) (heap : Heap) (store : Store) where
  -- The random numbers of the next n calls of AllocTEID: each call finds one that serves.
  abbrev pub Serve : ℕ → Draws → Type 0
  Serve zero draws = Unit
  Serve (suc n) [] = ⊥
  Serve (suc n) (draw ∷ draws) = (is_some (alloc_teid heap draw store) ≡ true) × Serve n draws

  Serve-suc : (n : ℕ) (draws : Draws) → Serve (suc n) draws → Serve n draws
  Serve-suc zero draws h = tt
  Serve-suc (suc n) [] h = absurd h
  Serve-suc (suc n) (draw ∷ draws) h = (h.0, Serve-suc n draws h.1)

  local_gtpu_ip-Ip4 :
      (source : ℕ) (ip : Addr)
      → HasIp4 cfg
      → local_gtpu_ip_for_source cfg source ≡ some ip
      → is_ip4 ip ≡ true
  unfolding local_gtpu_ip_for_source
  local_gtpu_ip-Ip4 source ip c e = elim (Bool-cases (nat_beq source 0)) [
    | inl it ↦ subst (λ a. is_ip4 a ≡ true) (cc (rw it at e)) c.access
    | inr not_0 ↦ elim (Bool-cases (nat_beq source 1)) [
      | inl it ↦ subst (λ a. is_ip4 a ≡ true) (cc (rw (not_0, it) at e)) c.core
      | inr not_1 ↦ absurd (cc (rw (not_0, not_1) at e))
    ]
  ]

  abbrev Serves {ℓ} : {A : Type ℓ} → ℕ → A × List Element × Draws → Type 0
  Serves n r = Serve n r.2

  choose_fteid-Settles :
      {E : Type 0} (e : E) (pdr : Pdr) (n : ℕ) (draws : Draws)
      → HasIp4 cfg
      → Serve (suc n) draws
      → Settles (Serves n) (choose_fteid e cfg heap store pdr draws)
  unfolding choose_fteid
  choose_fteid-Settles e pdr n [] c h = absurd h
  choose_fteid-Settles e pdr n (draw ∷ draws) c h =
      elim (Option-cases (alloc_teid heap draw store)) [
        | inl short ↦ absurd (cc (rw short at h.0))
        | inr teid ↦ elim (Option-cases (local_gtpu_ip_for_source cfg pdr.source_interface)) [
          | inl no_ip ↦ rw (teid.1, choose_fteid, no_ip) tt
          | inr ip ↦ elim (Option-cases (new_fteid_v4 teid.0 ip.0)) [
            | inl broken ↦ absurd (
                cc (
                  new_fteid_v4-some teid.0 ip.0
                    (local_gtpu_ip-Ip4 pdr.source_interface ip.0 c ip.1)))
            | inr fteid ↦ rw (teid.1, choose_fteid, ip.1, fteid.1) h.1
          ]
        ]
      ]

  chooses-Settles : (pdi : List Element) → Settles Any (chooses pdi)
  chooses-Settles pdi = elim (Option-cases (find pdi type_fteid)) [
    | inl absent ↦ rw (absent, chooses) tt
    | inr ie ↦ elim (Result-cases (fteid_pfcp_value ie.0)) [
      | inl good ↦ rw (ie.1, chooses, good.1) tt
      | inr bad ↦ rw (ie.1, chooses, bad.1) tt
    ]
  ]

  quality-Settles : (cs : List Element) → Settles Any (quality cs)
  quality-Settles cs = elim (Result-cases (qos_of cs)) [
    | inl good ↦ rw (good.1, quality) tt
    | inr bad ↦ rw (bad.1, quality) tt
  ]

  chosen-Settles :
      (choose : Bool) (pdr : Pdr) (n : ℕ) (draws : Draws)
      → HasIp4 cfg
      → Serve (suc n) draws
      → Settles (Serves n) (
          if choose
          then choose_fteid rule_failure cfg heap store pdr draws
          else done (pdr, [], draws))
  chosen-Settles true pdr n draws c h = choose_fteid-Settles rule_failure pdr n draws c h
  chosen-Settles false pdr n draws c h = Serve-suc n draws h

  build_pdr-Settles :
      (ie : Element) (n : ℕ) (draws : Draws)
      → HasIp4 cfg
      → ValidPdr (children_or_nil ie)
      → NamesFar ie
      → Serve (suc n) draws
      → Settles (Serves n) (build_pdr cfg heap store ie draws)
  unfolding build_pdr
  build_pdr-Settles ie n draws c v far h =
      let cs = children_or_nil ie in
      Settles-bind Any (Serves n) (called (find cs type_pdr_id) _) _
        (called-Settles Refusal (find cs type_pdr_id) _ v.pdr_id_there)
        λ pdr_id u.
          Settles-bind Any (Serves n) (called (find cs type_far_id) _) _
            (called-Settles Refusal (find cs type_far_id) _ far)
            λ far_id u.
              Settles-bind (λ pdi. has_type pdi type_source_interface ≡ true) (Serves n)
                (called (find cs type_pdi) children_or_nil) _
                (called_children-Settles Refusal (find cs type_pdi) type_source_interface
                  v.source_there)
                λ pdi s.
                  Settles-bind Any (Serves n) (called (find pdi type_source_interface) _) _
                    (called-Settles Refusal (find pdi type_source_interface) _ s)
                    λ source u.
                      Settles-bind Any (Serves n) (quality cs) _ (quality-Settles cs) λ qos u.
                        Settles-bind Any (Serves n) (chooses pdi) _ (chooses-Settles pdi)
                          λ choose u. chosen-Settles choose _ n draws c h

  pub build_pdrs-Settles :
      (ies : List Element) (draws : Draws)
      → HasIp4 cfg
      → All (λ ie. validate_create_pdr ie ≡ ok tt) ies
      → All NamesFar ies
      → Serve (length ies) draws
      → Settles Any (build_pdrs cfg heap store ies draws)
  unfolding build_pdrs
  build_pdrs-Settles [] draws c v far h = tt
  build_pdrs-Settles (ie ∷ ies) draws c v far h =
      Settles-bind (Serves (length ies)) Any (build_pdr cfg heap store ie draws) _
        (build_pdr-Settles ie (length ies) draws c (validate_create_pdr-ValidPdr ie v.0) far.0 h)
        λ first served.
          Settles-bind Any Any (build_pdrs cfg heap store ies first.2) _
            (build_pdrs-Settles ies first.2 c v.1 far.1 served) λ rest u. tt
