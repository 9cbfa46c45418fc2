-- ===== src/Sgwc/Ddn/Pacing.antt =====
-- internal/sgwc/ddncontrol/state.go: the pause between two notifications for one subscriber.

use vectorcore_sgw.Common.{
  ℕ, suc, zero, ◌+◌, ◌-◌, ◌<◌, ◌≡◌, ◌≢◌, refl, sym, ap, subst, ◌∙◌, String, Bool, true, false, ◌&&◌,
  some, text_keys, ltb, nat_beq, arith, inl, inr, Bool-cases,
}
use vectorcore_sgw.Common.Int.{ℤ, pos, non_positive}
use vectorcore_sgw.Sgwc.Ddn.{
  Priority, is_high, send_now, suppress, Config, Candidate, MmeState, UeState, State, mme_of,
  with_mme, ue_of, with_ue,
}
use vectorcore_sgw.Sgwc.Ddn.Decide.{
  Decision, in_suppression, in_throttling, spend, decide_on, decide, prepared, classify, or_now,
}
use vectorcore_sgw.Sgwc.Ddn.Entries.{lookup-with_ue, ue_of_known}
use vectorcore_sgw.Sgwc.Ddn.Outcomes.{decide-decide_on}
use vectorcore_sgw.Sgwc.Ddn.Quiet.{
  last_ddn_of, last_of_known, record_sent-last_ddn, record_sent-cfg, record_suppressed-cfg,
  record_delayed-cfg, with_mme-cfg, Kept, Quiet, Quiet-Kept,
}

-- What a step of `Decide` leaves behind for the next one.
record Step (c : Candidate) (at : ℕ) (s : State) (r : State × Decision) : Type 0 where
  same_cfg : r.0.cfg ≡ s.cfg
  sent_at : r.1.action ≡ send_now → last_ddn_of c.imsi r.0 ≡ some at

decide_on-Step :
    (c : Candidate) (p : Priority) (reason : String) (at now : ℕ) (m : MmeState) (u : UeState)
    (s : State)
    → Step c at s (decide_on c p reason at now m u s)
unfolding decide_on
decide_on-Step c p reason at now m u s = elim (Bool-cases (in_suppression s.cfg p u at)) [
  | inl window ↦
      rw window
        (record { same_cfg = record_suppressed-cfg c p now s; sent_at = λ e. absurd (cc e) })
  | inr free ↦ elim (Bool-cases (in_throttling s.cfg p m at)) [
    | inl throttled ↦
        rw (free, throttled)
          (record { same_cfg = record_suppressed-cfg c p now s; sent_at = λ e. absurd (cc e) })
    | inr clear ↦ elim (Bool-cases (non_positive m.tokens)) [
      | inr some_token ↦
          rw (free, clear, some_token)
            (record {
              same_cfg =
                  record_sent-cfg c p at (with_mme c.mme_addr at spend s)
                  ∙ with_mme-cfg c.mme_addr at spend s;
              sent_at = λ e. record_sent-last_ddn c p at (with_mme c.mme_addr at spend s);
            })
      | inl empty ↦ elim (Bool-cases (is_high p && s.cfg.high_priority_bypass)) [
        | inl allowed ↦
            rw (free, clear, empty, allowed)
              (record {
                same_cfg = record_sent-cfg c p at s;
                sent_at = λ e. record_sent-last_ddn c p at s;
              })
        | inr refused ↦
            rw (free, clear, empty, refused)
              (record { same_cfg = record_delayed-cfg c p now s; sent_at = λ e. absurd (cc e) })
      ]
    ]
  ]
]

-- The window that a last notification at `t` opens.
in_window :
    (cfg : Config) (p : Priority) (u : UeState) (at t k : ℕ)
    → is_high p ≡ false
    → cfg.per_ue_suppression ≡ pos (suc k)
    → u.last_ddn_at ≡ t
    → nat_beq t 0 ≡ false
    → at < t + suc k
    → in_suppression cfg p u at ≡ true
in_window cfg p u at t k other pause last some_time before =
    let inside : ltb at (t + suc k) ≡ true = ground arith in
    rw (other, pause, last, some_time, inside) refl

suppressed_in_window :
    (c : Candidate) (p : Priority) (reason : String) (at now : ℕ) (m : MmeState) (u : UeState)
    (s : State) (t k : ℕ)
    → in_suppression s.cfg p u at ≡ true
    → s.cfg.per_ue_suppression ≡ pos (suc k)
    → u.last_ddn_at ≡ t
    → ((decide_on c p reason at now m u s).1.action ≡ suppress)
      × ((decide_on c p reason at now m u s).1.retry_after ≡ t + suc k - at)
unfolding decide_on
suppressed_in_window c p reason at now m u s t k window pause last =
    rw window (refl, rw (pause, last) refl)

prepared-ue :
    (tokens_in : ℕ → ℕ → ℤ) (c : Candidate) (at : ℕ) (s : State)
    → ue_of c.imsi (prepared tokens_in c at s) ≡ ue_of c.imsi s
unfolding prepared with_mme ue_of
prepared-ue tokens_in c at s =
    ue_of_known c.imsi (prepared tokens_in c at s) (ue_of c.imsi s)
      (lookup-with_ue c.imsi (λ ue. ue) _)

prepared-cfg :
    (tokens_in : ℕ → ℕ → ℤ) (c : Candidate) (at : ℕ) (s : State)
    → (prepared tokens_in c at s).cfg ≡ s.cfg
unfolding prepared with_ue with_mme
prepared-cfg tokens_in c at s = refl

decide-Step :
    (equal_fold : String → String → Bool) (tokens_in : ℕ → ℕ → ℤ) (c : Candidate) (at now : ℕ)
    (s : State)
    → s.cfg.enabled ≡ true
    → Step c (or_now at now) s (decide equal_fold tokens_in c at now s)
decide-Step equal_fold tokens_in c at now s enabled =
    let ready : State = prepared tokens_in c (or_now at now) s in
    let step =
      decide_on-Step c (classify equal_fold s.cfg c).0 (classify equal_fold s.cfg c).1
        (or_now at now) now (mme_of c.mme_addr (or_now at now) ready) (ue_of c.imsi ready) ready in
    subst (λ (r : State × Decision). Step c (or_now at now) s r)
      (sym (decide-decide_on equal_fold tokens_in c at now s enabled))
      (record {
        same_cfg = step.same_cfg ∙ prepared-cfg tokens_in c (or_now at now) s;
        sent_at = step.sent_at;
      })

window_answer :
    (equal_fold : String → String → Bool) (tokens_in : ℕ → ℕ → ℤ) (c : Candidate) (at now : ℕ)
    (s : State) (t k : ℕ)
    → s.cfg.enabled ≡ true
    → s.cfg.per_ue_suppression ≡ pos (suc k)
    → last_ddn_of c.imsi s ≡ some t
    → nat_beq t 0 ≡ false
    → is_high (classify equal_fold s.cfg c).0 ≡ false
    → or_now at now < t + suc k
    → ((decide equal_fold tokens_in c at now s).1.action ≡ suppress)
      × ((decide equal_fold tokens_in c at now s).1.retry_after ≡ t + suc k - or_now at now)
unfolding prepared with_ue with_mme
window_answer equal_fold tokens_in c at now s t k enabled pause last some_time other before =
    let ready : State = prepared tokens_in c (or_now at now) s in
    let u_last : (ue_of c.imsi ready).last_ddn_at ≡ t =
      ap (λ (u : UeState). u.last_ddn_at) (prepared-ue tokens_in c (or_now at now) s)
      ∙ last_of_known c.imsi s t last in
    subst
      (λ (r : State × Decision).
        (r.1.action ≡ suppress) × (r.1.retry_after ≡ t + suc k - or_now at now))
      (sym (decide-decide_on equal_fold tokens_in c at now s enabled))
      (suppressed_in_window c (classify equal_fold s.cfg c).0 (classify equal_fold s.cfg c).1
        (or_now at now) now (mme_of c.mme_addr (or_now at now) ready) (ue_of c.imsi ready) ready t k
        (in_window s.cfg (classify equal_fold s.cfg c).0 (ue_of c.imsi ready) (or_now at now) t k
          other pause u_last some_time before)
        pause u_last)

-- Once Decide has sent a notification for a subscriber, with the control enabled and a positive pause
-- configured, its answer for the same subscriber is to suppress, for any candidate that is not of high
-- priority and comes before the pause is over, whatever the methods have done in between, other than
-- to send for this subscriber again; it then tells what is left of the pause.
pub decide_after_send :
    (equal_fold : String → String → Bool) (tokens_in : ℕ → ℕ → ℤ) (c later : Candidate)
    (at now at' now' k : ℕ) (s s' : State)
    → s.cfg.enabled ≡ true
    → s.cfg.per_ue_suppression ≡ pos (suc k)
    → or_now at now ≢ 0
    → (decide equal_fold tokens_in c at now s).1.action ≡ send_now
    → Quiet equal_fold tokens_in c.imsi (decide equal_fold tokens_in c at now s).0 s'
    → later.imsi ≡ c.imsi
    → is_high (classify equal_fold s.cfg later).0 ≡ false
    → or_now at' now' < or_now at now + suc k
    → ((decide equal_fold tokens_in later at' now' s').1.action ≡ suppress)
      × ((decide equal_fold tokens_in later at' now' s').1.retry_after
          ≡ or_now at now + suc k - or_now at' now')
decide_after_send equal_fold tokens_in c later at now at' now' k s s' enabled pause some_time sent
      quiet same other before =
    let step = decide-Step equal_fold tokens_in c at now s enabled in
    let kept : Kept c.imsi (decide equal_fold tokens_in c at now s).0 s' =
      Quiet-Kept equal_fold tokens_in c.imsi quiet in
    let cfg : s'.cfg ≡ s.cfg = kept.same_cfg ∙ step.same_cfg in
    window_answer equal_fold tokens_in later at' now' s' (or_now at now) k
      (ap (λ (x : Config). x.enabled) cfg ∙ enabled)
      (ap (λ (x : Config). x.per_ue_suppression) cfg ∙ pause)
      (ap (λ i. last_ddn_of i s') same ∙ kept.same_last (or_now at now) (step.sent_at sent))
      (nonzero (or_now at now) some_time)
      (ap (λ (x : Config). is_high (classify equal_fold x later).0) cfg ∙ other) before
  where
    nonzero : (t : ℕ) → t ≢ 0 → nat_beq t 0 ≡ false
    nonzero zero h = absurd (h refl)
    nonzero (suc t) h = ground arith
