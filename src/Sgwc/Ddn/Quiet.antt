-- ===== src/Sgwc/Ddn/Quiet.antt =====
-- internal/sgwc/ddncontrol/state.go: what the methods leave of the time of the last notification for one
-- subscriber.
use mathlib.Core.Option
use vectorcore_sgw.Common.{
  ℕ, ◌≡◌, ◌≢◌, refl, sym, ap, subst, ◌∙◌, String, Bool, false, ◌&&◌, ◌==◌, ◌⊎◌, Option, some,
  text_keys, inl, inr, Bool-cases, Option-cases,
}
use vectorcore_sgw.Common.Int.{ℤ, non_positive}
use vectorcore_sgw.Common.Maps.{lookup, lookup-insert}
use vectorcore_sgw.Sgwc.Ddn.{
  Priority, is_high, send_now, Candidate, MmeState, UeState, State, mme_of,
  mark_mme_low_priority_throttled, with_mme, ue_of, with_ue, record_sent, record_suppressed,
  record_delayed,
}
use vectorcore_sgw.Sgwc.Ddn.Decide.{
  Decision, in_suppression, in_throttling, spend, decide_on, decide, prepared, classify, or_now,
  decide_at, record_suppressed_at, record_delayed_at,
}
use vectorcore_sgw.Sgwc.Ddn.Entries.{lookup-with_ue}
use vectorcore_sgw.Sgwc.Ddn.Outcomes.{decide-decide_on}
use vectorcore_sgw.Sgwc.Ddn.Priorities.{disabled_only, disabled-send_now}

-- When the last notification for a subscriber was sent.
abbrev pub last_ddn_of : String → State → Option ℕ
last_ddn_of imsi s = Option.map (λ (u : UeState). u.last_ddn_at) (lookup imsi s.ues)

pub record_sent-last_ddn :
    (c : Candidate) (p : Priority) (at : ℕ) (s : State)
    → last_ddn_of c.imsi (record_sent c p at s) ≡ some at
unfolding record_sent
record_sent-last_ddn c p at s =
    ap (Option.map (λ (u : UeState). u.last_ddn_at)) (lookup-with_ue c.imsi _ _)

pub record_sent-cfg :
    (c : Candidate) (p : Priority) (at : ℕ) (s : State) → (record_sent c p at s).cfg ≡ s.cfg
unfolding record_sent with_ue with_mme
record_sent-cfg c p at s = refl

pub record_suppressed-cfg :
    (c : Candidate) (p : Priority) (now : ℕ) (s : State) → (record_suppressed c p now s).cfg ≡ s.cfg
unfolding record_suppressed with_ue with_mme
record_suppressed-cfg c p now s = refl

pub record_delayed-cfg :
    (c : Candidate) (p : Priority) (now : ℕ) (s : State) → (record_delayed c p now s).cfg ≡ s.cfg
unfolding record_delayed with_ue with_mme
record_delayed-cfg c p now s = refl

pub with_mme-cfg :
    (addr : String) (at : ℕ) (f : MmeState → MmeState) (s : State)
    → (with_mme addr at f s).cfg ≡ s.cfg
unfolding with_mme
with_mme-cfg addr at f s = refl

pub last_of_known :
    (imsi : String) (s : State) (t : ℕ)
    → last_ddn_of imsi s ≡ some t
    → (ue_of imsi s).last_ddn_at ≡ t
unfolding ue_of
last_of_known imsi s t e = elim (Option-cases (lookup imsi s.ues)) [
  | inl absent ↦ absurd (cc (rw absent at e))
  | inr there ↦ rw (there.1, ue_of) (cc (rw there.1 at e))
]

-- The configuration stays, and so does the time of the last notification for the subscriber.
pub record Kept (imsi : String) (s t : State) : Type 0 where
  pub same_cfg : t.cfg ≡ s.cfg
  pub same_last : (at : ℕ) → last_ddn_of imsi s ≡ some at → last_ddn_of imsi t ≡ some at

Kept-then : (imsi : String) (s t u : State) → Kept imsi s t → Kept imsi t u → Kept imsi s u
Kept-then imsi s t u a b = record {
  same_cfg = b.same_cfg ∙ a.same_cfg;
  same_last = λ at e. b.same_last at (a.same_last at e);
}

with_mme-Kept :
    (imsi addr : String) (at : ℕ) (f : MmeState → MmeState) (s : State)
    → Kept imsi s (with_mme addr at f s)
unfolding with_mme
with_mme-Kept imsi addr at f s = record { same_cfg = refl; same_last = λ t e. e }

-- The entry of another subscriber changes, or the change leaves the time.
with_ue-Kept :
    (imsi other : String) (f : UeState → UeState) (s : State)
    → (other ≢ imsi) ⊎ ((u : UeState) → (f u).last_ddn_at ≡ u.last_ddn_at)
    → Kept imsi s (with_ue other f s)
unfolding with_ue ue_of
with_ue-Kept imsi other f s h = record {
  same_cfg = refl;
  same_last = λ t e.
      ap (Option.map (λ (u : UeState). u.last_ddn_at))
        (lookup-insert s.ues other (f (ue_of other s)) imsi)
      ∙ elim (Bool-cases (other == imsi)) [
        | inr apart ↦ rw apart e
        | inl same ↦
            let it : other ≡ imsi = (text_keys.same_iff other imsi).0 same in
            rw same (elim h [
              | inl apart ↦ absurd (apart it)
              | inr keeps ↦ ap some (
                  keeps (ue_of other s)
                  ∙ last_of_known other s t (ap (λ i. last_ddn_of i s) it ∙ e))
            ])
      ];
}

record_sent-Kept :
    (imsi : String) (c : Candidate) (p : Priority) (at : ℕ) (s : State)
    → c.imsi ≢ imsi
    → Kept imsi s (record_sent c p at s)
unfolding record_sent
record_sent-Kept imsi c p at s apart =
    Kept-then imsi s _ _ (with_mme-Kept imsi c.mme_addr at _ s)
      (with_ue-Kept imsi c.imsi _ _ (inl apart))

record_suppressed-Kept :
    (imsi : String) (c : Candidate) (p : Priority) (now : ℕ) (s : State)
    → Kept imsi s (record_suppressed c p now s)
unfolding record_suppressed
record_suppressed-Kept imsi c p now s =
    Kept-then imsi s _ _ (with_mme-Kept imsi c.mme_addr now _ s)
      (with_ue-Kept imsi c.imsi _ _ (inr (λ u. refl)))

record_delayed-Kept :
    (imsi : String) (c : Candidate) (p : Priority) (now : ℕ) (s : State)
    → Kept imsi s (record_delayed c p now s)
unfolding record_delayed
record_delayed-Kept imsi c p now s =
    Kept-then imsi s _ _ (with_mme-Kept imsi c.mme_addr now _ s)
      (with_ue-Kept imsi c.imsi _ _ (inr (λ u. refl)))

-- A decision for another subscriber, or one that is not to send.
abbrev pub NotSentTo : String → Candidate → Decision → Type 0
NotSentTo imsi c d = (c.imsi ≢ imsi) ⊎ (d.action ≢ send_now)

apart_of :
    (imsi : String) (c : Candidate) (d : Decision)
    → NotSentTo imsi c d
    → d.action ≡ send_now
    → c.imsi ≢ imsi
apart_of imsi c d (inl apart) e = apart
apart_of imsi c d (inr not_sent) e = absurd (not_sent e)

decide_on-Kept :
    (imsi : String) (c : Candidate) (p : Priority) (reason : String) (at now : ℕ) (m : MmeState)
    (u : UeState) (s : State)
    → ((decide_on c p reason at now m u s).1.action ≡ send_now → c.imsi ≢ imsi)
    → Kept imsi s (decide_on c p reason at now m u s).0
unfolding decide_on
decide_on-Kept imsi c p reason at now m u s h = elim (Bool-cases (in_suppression s.cfg p u at)) [
  | inl window ↦ rw window (record_suppressed-Kept imsi c p now s)
  | inr free ↦ elim (Bool-cases (in_throttling s.cfg p m at)) [
    | inl throttled ↦ rw (free, throttled) (record_suppressed-Kept imsi c p now s)
    | inr clear ↦ elim (Bool-cases (non_positive m.tokens)) [
      | inr some_token ↦
          rw (free, clear, some_token)
            (Kept-then imsi s _ _ (with_mme-Kept imsi c.mme_addr at spend s)
              (record_sent-Kept imsi c p at _ (rw (free, clear, some_token) at h refl)))
      | inl empty ↦ elim (Bool-cases (is_high p && s.cfg.high_priority_bypass)) [
        | inl allowed ↦
            rw (free, clear, empty, allowed)
              (record_sent-Kept imsi c p at s (rw (free, clear, empty, allowed) at h refl))
        | inr refused ↦ rw (free, clear, empty, refused) (record_delayed-Kept imsi c p now s)
      ]
    ]
  ]
]

prepared-Kept :
    (imsi : String) (tokens_in : ℕ → ℕ → ℤ) (c : Candidate) (at : ℕ) (s : State)
    → Kept imsi s (prepared tokens_in c at s)
unfolding prepared
prepared-Kept imsi tokens_in c at s =
    Kept-then imsi s _ _ (with_mme-Kept imsi c.mme_addr at _ s)
      (with_ue-Kept imsi c.imsi _ _ (inr (λ u. refl)))

module _ (equal_fold : String → String → Bool) (tokens_in : ℕ → ℕ → ℤ) where
  decide_disabled :
      (c : Candidate) (at now : ℕ) (s : State)
      → s.cfg.enabled ≡ false
      → (decide equal_fold tokens_in c at now s).0
        ≡ record_sent c (classify equal_fold s.cfg c).0 (or_now at now) s
  unfolding decide decide_at
  decide_disabled c at now s off =
      ap (λ (r : State × Decision). r.0) (disabled_only s.cfg.enabled _ _ off)

  decide-Kept :
      (imsi : String) (c : Candidate) (at now : ℕ) (s : State)
      → NotSentTo imsi c (decide equal_fold tokens_in c at now s).1
      → Kept imsi s (decide equal_fold tokens_in c at now s).0
  decide-Kept imsi c at now s h = elim (Bool-cases s.cfg.enabled) [
    | inr off ↦ subst (Kept imsi s) (sym (decide_disabled c at now s off)) (
        record_sent-Kept imsi c (classify equal_fold s.cfg c).0 (or_now at now) s (
          apart_of imsi c (decide equal_fold tokens_in c at now s).1 h
            (disabled-send_now equal_fold tokens_in c at now s off)))
    | inl on ↦
        let e = decide-decide_on equal_fold tokens_in c at now s on in
        let ready : State = prepared tokens_in c (or_now at now) s in
        let sent : (decide equal_fold tokens_in c at now s).1.action ≡ send_now → c.imsi ≢ imsi =
          apart_of imsi c (decide equal_fold tokens_in c at now s).1 h in
        subst (λ (r : State × Decision). Kept imsi s r.0) (sym e)
          (Kept-then imsi s ready _ (prepared-Kept imsi tokens_in c (or_now at now) s) (
            decide_on-Kept imsi c (classify equal_fold s.cfg c).0 (classify equal_fold s.cfg c).1
              (or_now at now) now (mme_of c.mme_addr (or_now at now) ready) (ue_of c.imsi ready)
              ready (λ is. sent (ap (λ (r : State × Decision). r.1.action) e ∙ is))))
  ]

  -- Calls of the methods, in any order and with any times, none of which sends for the subscriber.
  pub data Quiet (imsi : String) (s : State) : State → Type 0 where
    start : Quiet imsi s s
    decided :
        {t : State} (c : Candidate) (at now : ℕ)
        → Quiet imsi s t
        → NotSentTo imsi c (decide equal_fold tokens_in c at now t).1
        → Quiet imsi s (decide equal_fold tokens_in c at now t).0
    sent :
        {t : State} (c : Candidate) (p : Priority) (at now : ℕ)
        → Quiet imsi s t
        → c.imsi ≢ imsi
        → Quiet imsi s (record_sent c p (or_now at now) t)
    suppressed :
        {t : State} (c : Candidate) (p : Priority) (at now : ℕ)
        → Quiet imsi s t
        → Quiet imsi s (record_suppressed_at c p at now t)
    delayed :
        {t : State} (c : Candidate) (p : Priority) (at now : ℕ)
        → Quiet imsi s t
        → Quiet imsi s (record_delayed_at c p at now t)
    throttled :
        {t : State} (addr reason : String) (until at now : ℕ)
        → Quiet imsi s t
        → Quiet imsi s (mark_mme_low_priority_throttled addr reason until (or_now at now) t)

  pub Quiet-Kept : (imsi : String) {s t : State} → Quiet imsi s t → Kept imsi s t
  unfolding record_suppressed_at record_delayed_at mark_mme_low_priority_throttled
  Quiet-Kept imsi start = record { same_cfg = refl; same_last = λ at e. e }
  Quiet-Kept imsi (decided {t} c at now q not_sent) =
      Kept-then imsi _ t _ (Quiet-Kept imsi q) (decide-Kept imsi c at now t not_sent)
  Quiet-Kept imsi (sent {t} c p at now q apart) =
      Kept-then imsi _ t _ (Quiet-Kept imsi q) (record_sent-Kept imsi c p (or_now at now) t apart)
  Quiet-Kept imsi (suppressed {t} c p at now q) = Kept-then imsi _ t _ (Quiet-Kept imsi q) (
      Kept-then imsi t _ _ (with_mme-Kept imsi c.mme_addr (or_now at now) (λ mme. mme) t)
        (record_suppressed-Kept imsi c p now _))
  Quiet-Kept imsi (delayed {t} c p at now q) = Kept-then imsi _ t _ (Quiet-Kept imsi q) (
      Kept-then imsi t _ _ (with_mme-Kept imsi c.mme_addr (or_now at now) (λ mme. mme) t)
        (record_delayed-Kept imsi c p now _))
  Quiet-Kept imsi (throttled {t} addr reason until at now q) =
      Kept-then imsi _ t _ (Quiet-Kept imsi q) (with_mme-Kept imsi addr (or_now at now) _ t)
