-- ===== src/Sgwc/Ddn.antt =====
-- internal/sgwc/ddncontrol/state.go: throttling and priority of Downlink Data Notifications. A time is
-- a number of nanoseconds, 0 the zero `time.Time`; a duration or an `int` that the configuration may
-- make negative is an integer. The maps hold pointers that nothing else keeps, so an entry is a value
-- that is put back when it changes.
pub mod Decide
pub mod Entries
pub mod Tokens
pub mod Outcomes
pub mod Priorities
pub mod Quiet
pub mod Pacing
pub mod Runs
use vectorcore_sgw.Common.{
  ℕ, suc, ◌+◌, ◌-◌, ◌*◌, ◌/◌, ◌%◌, ◌^◌, String, Bool, true, false, not, ◌&&◌, ◌||◌, Option, none,
  some, List, [], ◌∷◌, text_keys, ◌==◌, nat_beq, ltb, leb, if◌then◌else◌,
}
use vectorcore_sgw.Common.Int.{ℤ, pos, negsuc, ltb_ℤ, non_positive}
use vectorcore_sgw.Common.Maps.{lookup, insert}

pub data Priority : Type 0 where
  unknown high normal low : Priority

pub data DecisionAction : Type 0 where
  send_now delay suppress : DecisionAction

pub record PriorityRule : Type 0 where
  pub apn : String
  pub qci : ℕ
  pub arp_priority_min : ℕ
  pub arp_priority_max : ℕ
  pub reason : String

pub record Config : Type 0 where
  pub enabled : Bool
  pub per_mme_rate_limit : ℤ
  pub per_mme_burst : ℤ
  pub per_ue_suppression : ℤ
  pub honor_mme_low_priority_throttling : Bool
  pub low_priority_throttle : ℤ
  pub high_priority_bypass : Bool
  pub high_priority : List PriorityRule
  pub low_priority : List PriorityRule

pub record Candidate : Type 0 where
  pub mme_addr : String
  pub imsi : String
  pub apn : String
  pub ebi : ℕ
  pub qci : ℕ
  pub arp_priority : ℕ

pub record MmeState : Type 0 where
  pub mme_addr : String
  pub tokens : ℤ
  pub burst : ℤ
  pub rate_limit : ℤ
  pub last_refill_at : ℕ
  pub throttled_until : ℕ
  pub throttle_received : ℕ
  pub throttle_reason : String
  pub sent : ℕ
  pub delayed : ℕ
  pub suppressed : ℕ
  pub high_priority_bypassed : ℕ

pub record UeState : Type 0 where
  pub imsi : String
  pub last_ddn_at : ℕ
  pub last_mme_addr : String
  pub last_apn : String
  pub last_ebi : ℕ
  pub last_priority : Option Priority
  pub suppressed : ℕ
  pub delayed : ℕ
  pub sent : ℕ

pub record State : Type 0 where
  pub cfg : Config
  pub mmes : List (String × MmeState)
  pub ues : List (String × UeState)

abbrev pub new_state : Config → State
new_state cfg = record { cfg = cfg; mmes = []; ues = [] }

abbrev pub is_high : Priority → Bool
is_high high = true
is_high other = false

abbrev pub is_low : Priority → Bool
is_low low = true
is_low other = false

-- A uint64 counter.
abbrev pub count_up : ℕ → ℕ
count_up n = (n + 1) % 2 ^ 64

-- `mmeLocked`, `refillMMELocked` and `ueLocked` follow, as what an entry is and becomes.
abbrev pub fresh_mme : Config → String → ℕ → MmeState
fresh_mme cfg addr at = record {
  mme_addr = addr;
  tokens = cfg.per_mme_burst;
  burst = cfg.per_mme_burst;
  rate_limit = cfg.per_mme_rate_limit;
  last_refill_at = at;
  throttled_until = 0;
  throttle_received = 0;
  throttle_reason = "";
  sent = 0;
  delayed = 0;
  suppressed = 0;
  high_priority_bypassed = 0;
}

unfoldable pub mme_of : String → ℕ → State → MmeState
mme_of addr at s = elim (lookup addr s.mmes) [ none ↦ fresh_mme s.cfg addr at | some mme ↦ mme ]

-- The entry that `mmeLocked` finds or makes, changed by `f`.
unfoldable pub with_mme : String → ℕ → (MmeState → MmeState) → State → State
with_mme addr at f s = record s { mmes = insert addr (f (mme_of addr at s)) s.mmes }

abbrev pub fresh_ue : String → UeState
fresh_ue imsi = record {
  imsi = imsi;
  last_ddn_at = 0;
  last_mme_addr = "";
  last_apn = "";
  last_ebi = 0;
  last_priority = none;
  suppressed = 0;
  delayed = 0;
  sent = 0;
}

unfoldable pub ue_of : String → State → UeState
ue_of imsi s = elim (lookup imsi s.ues) [ none ↦ fresh_ue imsi | some ue ↦ ue ]

unfoldable pub with_ue : String → (UeState → UeState) → State → State
with_ue imsi f s = record s { ues = insert imsi (f (ue_of imsi s)) s.ues }

-- `rate <= 0` becomes 1.
abbrev pub positive_rate : ℤ → ℕ
positive_rate (pos (suc n)) = suc n
positive_rate other = 1

-- `if mme.Tokens > mme.Burst { mme.Tokens = mme.Burst }`
abbrev pub capped : MmeState → MmeState
capped mme = if ltb_ℤ mme.burst mme.tokens then record mme { tokens = mme.burst } else mme

abbrev pub add_ℕ : ℤ → ℕ → ℤ
add_ℕ (pos n) k = pos (n + k)
add_ℕ (negsuc n) k = if ltb n k then pos (k - suc n) else negsuc (n - k)

-- The values that are not positive get their defaults.
abbrev pub with_defaults : Config → MmeState → MmeState
with_defaults cfg mme =
    let rate = pos (positive_rate cfg.per_mme_rate_limit) in
    let burst = if non_positive cfg.per_mme_burst then rate else cfg.per_mme_burst in
    record mme {
      burst = if non_positive mme.burst then burst else mme.burst;
      rate_limit = if non_positive mme.rate_limit then rate else mme.rate_limit;
    }

-- `tokens_in elapsed rate` is `int(elapsed.Seconds() * float64(rate))`.
module _ (tokens_in : ℕ → ℕ → ℤ) where
  -- `mme` has its defaults, and no more tokens than its burst.
  unfoldable pub refill_elapsed : ℕ → ℕ → MmeState → MmeState
  refill_elapsed rate at mme =
      if nat_beq mme.last_refill_at 0
      then record mme { last_refill_at = at }
      else if leb at mme.last_refill_at
      then mme
      else elim (tokens_in (at - mme.last_refill_at) rate) [
        | negsuc n ↦ mme
        | pos add ↦
            if nat_beq add 0
            then mme
            else record (capped (record mme { tokens = add_ℕ mme.tokens add })) {
              last_refill_at = mme.last_refill_at + add * 1000000000 / rate;
            }
      ]

  unfoldable pub refill_mme : Config → ℕ → MmeState → MmeState
  unfolding refill_elapsed
  refill_mme cfg at mme =
      refill_elapsed (positive_rate cfg.per_mme_rate_limit) at (capped (with_defaults cfg mme))

-- `nextTokenDelayLocked`
unfoldable pub next_token_delay : Config → MmeState → ℕ
next_token_delay cfg mme =
    1000000000
    / positive_rate (if non_positive mme.rate_limit then cfg.per_mme_rate_limit else mme.rate_limit)

unfoldable pub record_sent : Candidate → Priority → ℕ → State → State
record_sent c priority at s =
    with_ue c.imsi
      (λ ue. record ue {
        last_ddn_at = at;
        last_mme_addr = c.mme_addr;
        last_apn = c.apn;
        last_ebi = c.ebi;
        last_priority = some priority;
        sent = count_up ue.sent;
      })
      (with_mme c.mme_addr at
        (λ mme. record mme {
          sent = count_up mme.sent;
          high_priority_bypassed =
              if is_high priority && s.cfg.high_priority_bypass
              then count_up mme.high_priority_bypassed
              else mme.high_priority_bypassed;
        })
        s)

-- `now` is `time.Now()`.
unfoldable pub record_suppressed : Candidate → Priority → ℕ → State → State
record_suppressed c priority now s =
    with_ue c.imsi
      (λ ue. record ue {
        last_mme_addr = c.mme_addr;
        last_apn = c.apn;
        last_ebi = c.ebi;
        last_priority = some priority;
        suppressed = count_up ue.suppressed;
      })
      (with_mme c.mme_addr now (λ mme. record mme { suppressed = count_up mme.suppressed }) s)

unfoldable pub record_delayed : Candidate → Priority → ℕ → State → State
record_delayed c priority now s =
    with_ue c.imsi
      (λ ue. record ue {
        last_mme_addr = c.mme_addr;
        last_apn = c.apn;
        last_ebi = c.ebi;
        last_priority = some priority;
        delayed = count_up ue.delayed;
      })
      (with_mme c.mme_addr now (λ mme. record mme { delayed = count_up mme.delayed }) s)

unfoldable pub mark_mme_low_priority_throttled : String → String → ℕ → ℕ → State → State
mark_mme_low_priority_throttled addr reason until at s =
    with_mme addr at
      (λ mme. record mme {
        throttled_until = until;
        throttle_received = at;
        throttle_reason = reason;
      })
      s
