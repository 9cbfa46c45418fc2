-- ===== src/Sgwc/Ddn/Outcomes.antt =====
-- internal/sgwc/ddncontrol/state.go: what `Decide` answers, and what it leaves in the entry of the MME.

use vectorcore_sgw.Common.{
  ℕ, suc, zero, ◌-◌, ◌≡◌, refl, sym, ap, subst, ◌∙◌, String, Bool, true, false, not, ◌&&◌, some,
  text_keys, if◌then◌else◌, arith, inl, inr, Bool-cases,
}
use vectorcore_sgw.Common.Int.{ℤ, pos, negsuc, non_positive}
use vectorcore_sgw.Common.Maps.{lookup}
use vectorcore_sgw.Sgwc.Ddn.{
  Priority, unknown, high, normal, low, is_high, is_low, send_now, delay, suppress, Config,
  Candidate, MmeState, UeState, State, mme_of, with_mme, ue_of, with_ue, refill_mme, record_sent,
}
use vectorcore_sgw.Sgwc.Ddn.Decide.{
  Decision, base, in_suppression, in_throttling, spend, decide_on, decide_at, decide, prepared,
  classify, or_now,
}
use vectorcore_sgw.Sgwc.Ddn.Entries.{
  mme_of_known, lookup-with_mme, tokens_of, record_sent-tokens, record_suppressed-tokens,
  record_delayed-tokens,
}

-- The answers, with the reason for each in the tokens and the priority.
pub data Answer (cfg : Config) (d : Decision) : Type 0 where
  one_token :
      (n : ℕ)
      → d.action ≡ send_now
      → d.bypass ≡ false
      → d.tokens_before ≡ pos (suc n)
      → d.tokens_after ≡ pos n
      → Answer cfg d
  bypassed :
      d.action ≡ send_now
      → d.bypass ≡ true
      → is_high d.priority ≡ true
      → cfg.high_priority_bypass ≡ true
      → non_positive d.tokens_before ≡ true
      → d.tokens_after ≡ d.tokens_before
      → Answer cfg d
  held_back :
      d.action ≡ suppress
      → is_high d.priority ≡ false
      → d.tokens_after ≡ d.tokens_before
      → Answer cfg d
  out_of_tokens :
      d.action ≡ delay
      → (is_high d.priority && cfg.high_priority_bypass) ≡ false
      → non_positive d.tokens_before ≡ true
      → d.tokens_after ≡ d.tokens_before
      → Answer cfg d

spend_one :
    (m : MmeState)
    → non_positive m.tokens ≡ false
    → (n : ℕ) × (m.tokens ≡ pos (suc n)) × ((spend m).tokens ≡ pos n)
spend_one m h =
    let (n, e) = positive m.tokens h in
    let same : suc n - 1 ≡ n = omega arith in (n, e, rw (e, same) refl)
  where
    positive : (t : ℤ) → non_positive t ≡ false → (n : ℕ) × (t ≡ pos (suc n))
    positive (pos zero) h = absurd (cc h)
    positive (pos (suc n)) h = (n, refl)
    positive (negsuc n) h = absurd (cc h)

low-not-high : (p : Priority) → is_low p ≡ true → is_high p ≡ false
low-not-high unknown h = refl
low-not-high high h = absurd (cc h)
low-not-high normal h = refl
low-not-high low h = refl

-- The head of a conjunction that holds.
and_first : (a b : Bool) → (a && b) ≡ true → a ≡ true
and_first true b h = refl
and_first false b h = absurd (cc h)

and_second : (a b : Bool) → (a && b) ≡ true → b ≡ true
and_second true b h = h
and_second false b h = absurd (cc h)

not-true : (a : Bool) → not a ≡ true → a ≡ false
not-true true h = absurd (cc h)
not-true false h = refl

suppressed-not-high :
    (cfg : Config) (p : Priority) (u : UeState) (at : ℕ)
    → in_suppression cfg p u at ≡ true
    → is_high p ≡ false
suppressed-not-high cfg p u at h = not-true (is_high p) (and_first (not (is_high p)) _ h)

throttled-not-high :
    (cfg : Config) (p : Priority) (m : MmeState) (at : ℕ)
    → in_throttling cfg p m at ≡ true
    → is_high p ≡ false
throttled-not-high cfg p m at h = low-not-high p (and_first (is_low p) _ h)

spent-Answer :
    (c : Candidate) (p : Priority) (reason : String) (at : ℕ) (m : MmeState) (s : State)
    → lookup c.mme_addr s.mmes ≡ some m
    → non_positive m.tokens ≡ false
    → Answer s.cfg (record (base c p reason m.tokens) { tokens_after = (spend m).tokens })
      × (tokens_of c.mme_addr (record_sent c p at (with_mme c.mme_addr at spend s))
          ≡ some (spend m).tokens)
spent-Answer c p reason at m s e some_token =
    let (n, before, after) = spend_one m some_token in
    (
      one_token n refl refl before after,
      record_sent-tokens c p at (with_mme c.mme_addr at spend s) (spend m) (
          lookup-with_mme c.mme_addr at spend s
          ∙ ap (λ x. some (spend x)) (mme_of_known c.mme_addr at s m e)),
    )

decide_on-Answer :
    (c : Candidate) (p : Priority) (reason : String) (at now : ℕ) (m : MmeState) (u : UeState)
    (s : State)
    → lookup c.mme_addr s.mmes ≡ some m
    → Answer s.cfg (decide_on c p reason at now m u s).1
      × (tokens_of c.mme_addr (decide_on c p reason at now m u s).0
          ≡ some (decide_on c p reason at now m u s).1.tokens_after)
unfolding decide_on
decide_on-Answer c p reason at now m u s e = elim (Bool-cases (in_suppression s.cfg p u at)) [
  | inl window ↦ rw window (
    held_back refl (suppressed-not-high s.cfg p u at window) refl,
    record_suppressed-tokens c p now s m e,
  )
  | inr free ↦ elim (Bool-cases (in_throttling s.cfg p m at)) [
    | inl throttled ↦
        rw (free, throttled)
          (
            held_back refl (throttled-not-high s.cfg p m at throttled) refl,
            record_suppressed-tokens c p now s m e,
          )
    | inr unthrottled ↦ elim (Bool-cases (non_positive m.tokens)) [
      | inr some_token ↦
          rw (free, unthrottled, some_token) (spent-Answer c p reason at m s e some_token)
      | inl empty ↦ elim (Bool-cases (is_high p && s.cfg.high_priority_bypass)) [
        | inl allowed ↦
            rw (free, unthrottled, empty, allowed)
              (
                bypassed refl refl (and_first (is_high p) s.cfg.high_priority_bypass allowed)
                    (and_second (is_high p) s.cfg.high_priority_bypass allowed) empty refl,
                record_sent-tokens c p at s m e,
              )
        | inr refused ↦
            rw (free, unthrottled, empty, refused)
              (out_of_tokens refl refused empty refl, record_delayed-tokens c p now s m e)
      ]
    ]
  ]
]

prepared-mme :
    (tokens_in : ℕ → ℕ → ℤ) (c : Candidate) (at : ℕ) (s : State)
    → lookup c.mme_addr (prepared tokens_in c at s).mmes
      ≡ some (refill_mme tokens_in s.cfg at (mme_of c.mme_addr at s))
unfolding prepared with_ue
prepared-mme tokens_in c at s = lookup-with_mme c.mme_addr at (refill_mme tokens_in s.cfg at) s

pub enabled_only {ℓ} : {A : Type ℓ} (b : Bool) (x y : A) → b ≡ true → (if not b then x else y) ≡ y
enabled_only true x y h = refl
enabled_only false x y h = absurd (cc h)

-- `Decide` with the control enabled.
pub decide-decide_on :
    (equal_fold : String → String → Bool) (tokens_in : ℕ → ℕ → ℤ) (c : Candidate) (at now : ℕ)
    (s : State)
    → s.cfg.enabled ≡ true
    → decide equal_fold tokens_in c at now s
      ≡ decide_on c
          (classify equal_fold s.cfg c).0
          (classify equal_fold s.cfg c).1
          (or_now at now)
          now
          (mme_of c.mme_addr (or_now at now) (prepared tokens_in c (or_now at now) s))
          (ue_of c.imsi (prepared tokens_in c (or_now at now) s))
          (prepared tokens_in c (or_now at now) s)
unfolding decide decide_at
decide-decide_on equal_fold tokens_in c at now s enabled = enabled_only s.cfg.enabled _ _ enabled

pub prepared_entry :
    (tokens_in : ℕ → ℕ → ℤ) (c : Candidate) (at : ℕ) (s : State)
    → lookup c.mme_addr (prepared tokens_in c at s).mmes
      ≡ some (mme_of c.mme_addr at (prepared tokens_in c at s))
prepared_entry tokens_in c at s =
    let e = prepared-mme tokens_in c at s in
    e ∙ ap some (sym (mme_of_known c.mme_addr at (prepared tokens_in c at s) _ e))

-- A decision tells the tokens of the entry that it was made on.
decide_on-tokens_before :
    (c : Candidate) (p : Priority) (reason : String) (at now : ℕ) (m : MmeState) (u : UeState)
    (s : State)
    → (decide_on c p reason at now m u s).1.tokens_before ≡ m.tokens
unfolding decide_on
decide_on-tokens_before c p reason at now m u s = elim (Bool-cases (in_suppression s.cfg p u at)) [
  | inl window ↦ rw window refl
  | inr free ↦ elim (Bool-cases (in_throttling s.cfg p m at)) [
    | inl throttled ↦ rw (free, throttled) refl
    | inr unthrottled ↦ elim (Bool-cases (non_positive m.tokens)) [
      | inr some_token ↦ rw (free, unthrottled, some_token) refl
      | inl empty ↦ elim (Bool-cases (is_high p && s.cfg.high_priority_bypass)) [
        | inl allowed ↦ rw (free, unthrottled, empty, allowed) refl
        | inr refused ↦ rw (free, unthrottled, empty, refused) refl
      ]
    ]
  ]
]

-- The tokens that the entry of an MME has when a decision is due: those that were there, or the burst
-- of a new entry, after the refill up to that time.
abbrev pub refilled : (ℕ → ℕ → ℤ) → String → ℕ → State → ℤ
refilled tokens_in addr at s = (refill_mme tokens_in s.cfg at (mme_of addr at s)).tokens

prepared-refilled :
    (tokens_in : ℕ → ℕ → ℤ) (c : Candidate) (at : ℕ) (s : State)
    → (mme_of c.mme_addr at (prepared tokens_in c at s)).tokens ≡ refilled tokens_in c.mme_addr at s
prepared-refilled tokens_in c at s =
    ap (λ (m : MmeState). m.tokens)
      (mme_of_known c.mme_addr at (prepared tokens_in c at s) _ (prepared-mme tokens_in c at s))

-- What a decision comes to, and what it leaves of the tokens.
abbrev pub Decided : Config → String → ℤ → State × Decision → Type 0
Decided cfg addr tokens r =
    Answer cfg r.1 × (r.1.tokens_before ≡ tokens) × (tokens_of addr r.0 ≡ some r.1.tokens_after)

-- Where the control is enabled, Decide sends for one token, which is one of those that the entry of the
-- MME has after its refill up to now, or sends without one by the bypass for high priority, or holds
-- back a candidate that is not of high priority, or delays because there is no token and no bypass; only
-- the first changes the tokens, and the entry is left with the tokens that the decision tells.
pub decide-Answer :
    (equal_fold : String → String → Bool) (tokens_in : ℕ → ℕ → ℤ) (c : Candidate) (at now : ℕ)
    (s : State)
    → s.cfg.enabled ≡ true
    → Decided s.cfg c.mme_addr
        (refilled tokens_in c.mme_addr (or_now at now) s)
        (decide equal_fold tokens_in c at now s)
unfolding prepared with_ue with_mme
decide-Answer equal_fold tokens_in c at now s enabled =
    let t : ℕ = or_now at now in
    let ready : State = prepared tokens_in c t s in
    let m : MmeState = mme_of c.mme_addr t ready in
    let (answer, left) =
      decide_on-Answer c (classify equal_fold s.cfg c).0 (classify equal_fold s.cfg c).1 t now m
        (ue_of c.imsi ready) ready (prepared_entry tokens_in c t s) in
    subst (Decided s.cfg c.mme_addr (refilled tokens_in c.mme_addr t s))
      (sym (decide-decide_on equal_fold tokens_in c at now s enabled))
      (
        answer,
        decide_on-tokens_before c (classify equal_fold s.cfg c).0 (classify equal_fold s.cfg c).1 t
              now m (ue_of c.imsi ready) ready
            ∙ prepared-refilled tokens_in c t s,
        left,
      )
