-- ===== src/Sgwc/Ddn/Priorities.antt =====
-- internal/sgwc/ddncontrol/state.go: the rules of high priority, and the bypass.
use vectorcore_sgw.Common.{
  ℕ, ◌≡◌, ◌<◌, ◌≤◌, ◌⊎◌, nat_beq, nat_beq_iff, ◌==◌, List, [], ◌∷◌, refl, ap, ◌∙◌, String, Bool,
  true, false, not, ◌&&◌, some, text_keys, if◌then◌else◌, arith, inl, inr, Bool-cases,
}
use vectorcore_sgw.Common.Int.{ℤ, non_positive}
use vectorcore_sgw.Sgwc.Ddn.{
  Priority, high, send_now, Config, PriorityRule, Candidate, MmeState, UeState, State, mme_of,
  with_mme, ue_of, with_ue,
}
use vectorcore_sgw.Sgwc.Ddn.Decide.{
  Decision, decide_on, decide_at, decide, prepared, classify, or_now, matches, first_match,
  arp_matches,
}
use vectorcore_sgw.Sgwc.Ddn.Outcomes.{decide-decide_on}

high-send_now :
    (c : Candidate) (reason : String) (at now : ℕ) (m : MmeState) (u : UeState) (s : State)
    → s.cfg.high_priority_bypass ≡ true
    → (decide_on c high reason at now m u s).1.action ≡ send_now
unfolding decide_on
high-send_now c reason at now m u s bypass = elim (Bool-cases (non_positive m.tokens)) [
  | inr some_token ↦ rw some_token refl
  | inl empty ↦ rw (empty, bypass) refl
]

pub disabled_only {ℓ} : {A : Type ℓ} (b : Bool) (x y : A) → b ≡ false → (if not b then x else y) ≡ x
disabled_only true x y h = absurd (cc h)
disabled_only false x y h = refl

pub disabled-send_now :
    (equal_fold : String → String → Bool) (tokens_in : ℕ → ℕ → ℤ) (c : Candidate) (at now : ℕ)
    (s : State)
    → s.cfg.enabled ≡ false
    → (decide equal_fold tokens_in c at now s).1.action ≡ send_now
unfolding decide decide_at
disabled-send_now equal_fold tokens_in c at now s off =
    ap (λ (r : State × Decision). r.1.action) (disabled_only s.cfg.enabled _ _ off)

decide_high :
    (equal_fold : String → String → Bool) (tokens_in : ℕ → ℕ → ℤ) (c : Candidate) (at now : ℕ)
    (s : State)
    → s.cfg.high_priority_bypass ≡ true
    → (classify equal_fold s.cfg c).0 ≡ high
    → (decide equal_fold tokens_in c at now s).1.action ≡ send_now
unfolding prepared with_ue with_mme
decide_high equal_fold tokens_in c at now s bypass is = elim (Bool-cases s.cfg.enabled) [
  | inr off ↦ disabled-send_now equal_fold tokens_in c at now s off
  | inl enabled ↦
      let ready : State = prepared tokens_in c (or_now at now) s in
      let answer : Priority → Decision = λ p.
        (decide_on c p (classify equal_fold s.cfg c).1 (or_now at now) now
          (mme_of c.mme_addr (or_now at now) ready) (ue_of c.imsi ready) ready).1 in
      ap (λ (r : State × Decision). r.1.action)
        (decide-decide_on equal_fold tokens_in c at now s enabled)
      ∙ ap (λ p. (answer p).action) is
      ∙ high-send_now c (classify equal_fold s.cfg c).1 (or_now at now) now
          (mme_of c.mme_addr (or_now at now) ready) (ue_of c.imsi ready) ready bypass
]

-- What a rule asks of a candidate: its APN, its QCI and its range of ARP priorities, of which each may be
-- left open. An open end of the range is 1 or 15.
pub data InRange (r : PriorityRule) (arp : ℕ) : Type 0 where
  open_range : r.arp_priority_min ≡ 0 → r.arp_priority_max ≡ 0 → InRange r arp
  from_min : r.arp_priority_max ≡ 0 → r.arp_priority_min ≤ arp → 1 ≤ arp → arp ≤ 15 → InRange r arp
  to_max :
      r.arp_priority_min ≡ 0
      → 1 ≤ arp
      → 0 < r.arp_priority_max
      → arp ≤ r.arp_priority_max
      → InRange r arp
  between :
      0 < r.arp_priority_min → r.arp_priority_min ≤ arp → arp ≤ r.arp_priority_max → InRange r arp

pub record Fits (equal_fold : String → String → Bool) (r : PriorityRule) (c : Candidate)
    : Type 0 where
  pub apn_fits : (r.apn ≡ "") ⊎ (equal_fold r.apn c.apn ≡ true)
  pub qci_fits : (r.qci ≡ 0) ⊎ (r.qci ≡ c.qci)
  pub arp_fits : InRange r c.arp_priority

in_range : (r : PriorityRule) (c : Candidate) → InRange r c.arp_priority → arp_matches r c ≡ true
in_range r c (open_range no_min no_max) = rw (no_min, no_max) refl
in_range r c (from_min no_max above one below) = rw no_max (ground arith)
in_range r c (to_max no_min one some_max below) = rw no_min (ground arith)
in_range r c (between some_min above below) = ground arith

open_or_fold : (a b : Bool) → (a ≡ true) ⊎ (b ≡ true) → (not a && not b) ≡ false
open_or_fold true b h = refl
open_or_fold false true h = refl
open_or_fold false false (inl e) = absurd (cc e)
open_or_fold false false (inr e) = absurd (cc e)

Fits-matches :
    (equal_fold : String → String → Bool) (r : PriorityRule) (c : Candidate)
    → Fits equal_fold r c
    → matches equal_fold r c ≡ true
unfolding matches
Fits-matches equal_fold r c f =
    rw
      (
        open_or_fold (r.apn == "") (equal_fold r.apn c.apn) (elim f.apn_fits [
          | inl open_apn ↦ inl ((text_keys.same_iff r.apn "").1 open_apn)
          | inr same ↦ inr same
        ]),
        open_or_fold (nat_beq r.qci 0) (nat_beq r.qci c.qci) (elim f.qci_fits [
          | inl open_qci ↦ inl ((nat_beq_iff r.qci 0).1 open_qci)
          | inr same ↦ inr ((nat_beq_iff r.qci c.qci).1 same)
        ]),
      )
      (in_range r c f.arp_fits)

-- A rule of the list asks for what the candidate has.
abbrev pub AnyFits : (String → String → Bool) → List PriorityRule → Candidate → Type 0
AnyFits equal_fold [] c = ⊥
AnyFits equal_fold (r ∷ rules) c = Fits equal_fold r c ⊎ AnyFits equal_fold rules c

first_match-some :
    (equal_fold : String → String → Bool) (rules : List PriorityRule) (c : Candidate)
    → AnyFits equal_fold rules c
    → (r : PriorityRule) × (first_match equal_fold rules c ≡ some r)
unfolding first_match
first_match-some equal_fold [] c h = absurd h
first_match-some equal_fold (r ∷ rules) c (inl here) =
    (r, rw (Fits-matches equal_fold r c here) refl)
first_match-some equal_fold (r ∷ rules) c (inr later) = elim (Bool-cases (matches equal_fold r c)) [
  | inl here ↦ (r, rw here refl)
  | inr not_here ↦ let (r', e) = first_match-some equal_fold rules c later in (r', rw not_here e)
]

classify-high :
    (equal_fold : String → String → Bool) (cfg : Config) (c : Candidate)
    → AnyFits equal_fold cfg.high_priority c
    → (classify equal_fold cfg c).0 ≡ high
unfolding classify
classify-high equal_fold cfg c h =
    let (r, e) = first_match-some equal_fold cfg.high_priority c h in rw (e, classify) refl

-- With the bypass configured, Decide sends at once for every candidate that has what one of the rules of
-- high priority asks for, whatever rules of low priority there are and however few tokens.
pub decide_high_priority :
    (equal_fold : String → String → Bool) (tokens_in : ℕ → ℕ → ℤ) (c : Candidate) (at now : ℕ)
    (s : State)
    → s.cfg.high_priority_bypass ≡ true
    → AnyFits equal_fold s.cfg.high_priority c
    → (decide equal_fold tokens_in c at now s).1.action ≡ send_now
decide_high_priority equal_fold tokens_in c at now s bypass fits =
    decide_high equal_fold tokens_in c at now s bypass (classify-high equal_fold s.cfg c fits)
