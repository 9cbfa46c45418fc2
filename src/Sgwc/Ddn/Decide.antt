-- ===== src/Sgwc/Ddn/Decide.antt =====
-- internal/sgwc/ddncontrol/state.go: the priority of a candidate, and `Decide`. `equal_fold` is
-- `strings.EqualFold`, `tokens_in` the product of the elapsed seconds and the rate.
use vectorcore_sgw.Common.{
  ℕ, suc, ◌+◌, ◌-◌, String, Bool, true, false, not, ◌&&◌, ◌||◌, Option, none, some, List, [], ◌∷◌,
  text_keys, ◌==◌, nat_beq, ltb, if◌then◌else◌,
}
use vectorcore_sgw.Common.Int.{ℤ, pos, negsuc, pos_part, non_positive}
use vectorcore_sgw.Sgwc.Ddn.{
  Priority, high, normal, low, is_high, is_low, DecisionAction, send_now, delay, suppress,
  PriorityRule, Config, Candidate, MmeState, UeState, State, mme_of, with_mme, ue_of, with_ue,
  refill_mme, next_token_delay, record_sent, record_suppressed, record_delayed,
}

pub record Decision : Type 0 where
  pub action : DecisionAction
  pub priority : Priority
  pub reason : String
  pub retry_after : ℕ
  pub bypass : Bool
  pub candidate : Candidate
  pub tokens_before : ℤ
  pub tokens_after : ℤ

-- The test on the ARP priority. 0 is a wildcard.
abbrev pub arp_matches : PriorityRule → Candidate → Bool
arp_matches r c =
    let min_priority = if nat_beq r.arp_priority_min 0 then 1 else r.arp_priority_min in
    let max_priority = if nat_beq r.arp_priority_max 0 then 15 else r.arp_priority_max in
    if not (nat_beq r.arp_priority_min 0) || not (nat_beq r.arp_priority_max 0)
    then not (ltb max_priority min_priority)
      && not (ltb c.arp_priority min_priority || ltb max_priority c.arp_priority)
    else true

module _ (equal_fold : String → String → Bool) where
  unfoldable pub matches : PriorityRule → Candidate → Bool
  matches r c =
      if not (r.apn == "") && not (equal_fold r.apn c.apn)
      then false
      else if not (nat_beq r.qci 0) && not (nat_beq r.qci c.qci)
      then false
      else arp_matches r c

  -- The first rule of a list that matches.
  unfoldable pub first_match : List PriorityRule → Candidate → Option PriorityRule
  first_match [] c = none
  first_match (r ∷ rules) c = if matches r c then some r else first_match rules c

abbrev pub priority_reason : PriorityRule → String → String
priority_reason r fallback = if not (r.reason == "") then r.reason else fallback

module _ (equal_fold : String → String → Bool) where
  unfoldable pub classify : Config → Candidate → Priority × String
  classify cfg c = elim (first_match equal_fold cfg.high_priority c) [
    | some r ↦ (high, priority_reason r "high-priority-rule")
    | none ↦ elim (first_match equal_fold cfg.low_priority c) [
      | some r ↦ (low, priority_reason r "low-priority-rule")
      | none ↦ (normal, "default-normal")
    ]
  ]

-- The fields that every branch of `Decide` fills in.
abbrev pub base : Candidate → Priority → String → ℤ → Decision
base c priority reason tokens_before = record {
  action = send_now;
  priority = priority;
  reason = reason;
  retry_after = 0;
  bypass = false;
  candidate = c;
  tokens_before = tokens_before;
  tokens_after = tokens_before;
}

-- `priority != PriorityHigh && PerUESuppression > 0 && !ue.LastDDNAt.IsZero()`, and `at` before the
-- end of the window
abbrev pub in_suppression : Config → Priority → UeState → ℕ → Bool
in_suppression cfg priority ue at =
    not (is_high priority)
    && (not (non_positive cfg.per_ue_suppression)
        && (not (nat_beq ue.last_ddn_at 0)
            && ltb at (ue.last_ddn_at + pos_part cfg.per_ue_suppression)))

abbrev pub in_throttling : Config → Priority → MmeState → ℕ → Bool
in_throttling cfg priority mme at =
    is_low priority
    && (cfg.honor_mme_low_priority_throttling
        && (not (nat_beq mme.throttled_until 0) && ltb at mme.throttled_until))

-- `mme.Tokens--`, which is reached with a token only
abbrev pub spend : MmeState → MmeState
spend mme = elim mme.tokens [
  | pos n ↦ record mme { tokens = pos (n - 1) }
  | negsuc n ↦ record mme { tokens = negsuc (suc n) }
]

-- `Decide` behind its look at the entries: `s` has both, and `mme` has been refilled.
unfoldable pub decide_on :
    Candidate → Priority → String → ℕ → ℕ → MmeState → UeState → State → State × Decision
decide_on c priority reason at now mme ue s =
    let b = base c priority reason mme.tokens in
    if in_suppression s.cfg priority ue at
    then (
      record_suppressed c priority now s,
      record b {
        action = suppress;
        reason = "per-ue-suppression";
        retry_after = ue.last_ddn_at + pos_part s.cfg.per_ue_suppression - at;
      },
    )
    else if in_throttling s.cfg priority mme at
    then (
      record_suppressed c priority now s,
      record b {
        action = suppress;
        reason = "mme-low-priority-throttling";
        retry_after = mme.throttled_until - at;
      },
    )
    else if not (non_positive mme.tokens)
    then (
      record_sent c priority at (with_mme c.mme_addr at spend s),
      record b { tokens_after = (spend mme).tokens },
    )
    else if is_high priority && s.cfg.high_priority_bypass
    then (record_sent c priority at s, record b { bypass = true; reason = "high-priority-bypass" })
    else (
      record_delayed c priority now s,
      record b {
        action = delay;
        reason = "per-mme-rate-limit";
        retry_after = next_token_delay s.cfg mme;
      },
    )

-- `at` where it is not zero, else the clock.
abbrev pub or_now : ℕ → ℕ → ℕ
or_now at now = if nat_beq at 0 then now else at

-- The entries that `Decide` works on, made if they are missing, and the tokens refilled.
unfoldable pub prepared : (ℕ → ℕ → ℤ) → Candidate → ℕ → State → State
prepared tokens_in c at s =
    with_ue c.imsi (λ ue. ue) (with_mme c.mme_addr at (refill_mme tokens_in s.cfg at) s)

unfoldable pub decide_at :
    (String → String → Bool) → (ℕ → ℕ → ℤ) → Candidate → ℕ → ℕ → State → State × Decision
decide_at equal_fold tokens_in c at now s =
    let (priority, reason) = classify equal_fold s.cfg c in
    if not s.cfg.enabled
    then (
      record_sent c priority at s,
      record (base c priority "ddn-control-disabled" (pos 0)) { tokens_after = pos 0 },
    )
    else let ready = prepared tokens_in c at s in
      decide_on c priority reason at now (mme_of c.mme_addr at ready) (ue_of c.imsi ready) ready

unfoldable pub decide :
    (String → String → Bool) → (ℕ → ℕ → ℤ) → Candidate → ℕ → ℕ → State → State × Decision
decide equal_fold tokens_in c at now s = decide_at equal_fold tokens_in c (or_now at now) now s

-- The exported methods that record a decision made elsewhere.
unfoldable pub record_suppressed_at : Candidate → Priority → ℕ → ℕ → State → State
record_suppressed_at c priority at now s =
    record_suppressed c priority now (with_mme c.mme_addr (or_now at now) (λ mme. mme) s)

unfoldable pub record_delayed_at : Candidate → Priority → ℕ → ℕ → State → State
record_delayed_at c priority at now s =
    record_delayed c priority now (with_mme c.mme_addr (or_now at now) (λ mme. mme) s)
