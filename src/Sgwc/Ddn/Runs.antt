-- ===== src/Sgwc/Ddn/Runs.antt =====
-- Concrete runs of internal/sgwc/ddncontrol/state.go, and the theorems at them.
use vectorcore_sgw.Common.{
  ℕ, ◌*◌, ◌/◌, ◌≡◌, refl, String, Bool, true, false, ◌≢◌, [], ◌∷◌, text_keys, ◌==◌, inl, inr, arith,
}
use vectorcore_sgw.Common.Int.{ℤ, pos}
use vectorcore_sgw.Common.Maps.{lookup, insert}
use vectorcore_sgw.Sgwc.Ddn.{
  send_now, delay, suppress, PriorityRule, Config, Candidate, State, new_state, mme_of, with_mme,
  ue_of, with_ue, refill_elapsed, refill_mme, next_token_delay, record_sent, record_suppressed,
  record_delayed,
}
use vectorcore_sgw.Sgwc.Ddn.Decide.{
  Decision, matches, first_match, classify, decide_on, prepared, decide_at, decide,
}
use vectorcore_sgw.Sgwc.Ddn.Tokens.{AllWithinBurst, created, decided, reached-WithinBurst}
use vectorcore_sgw.Sgwc.Ddn.Outcomes.{Decided, refilled, decide-Answer}
use vectorcore_sgw.Sgwc.Ddn.Priorities.{open_range, decide_high_priority}
use vectorcore_sgw.Sgwc.Ddn.Quiet.{Quiet}
use vectorcore_sgw.Sgwc.Ddn.Pacing.{decide_after_send}

-- One token for each MME, and a pause of 100 ns; APN "ims" is of high priority.
abbrev ims_rule : PriorityRule
ims_rule = record { apn = "ims"; qci = 0; arp_priority_min = 0; arp_priority_max = 0; reason = "" }

abbrev config : Config
config = record {
  enabled = true;
  per_mme_rate_limit = pos 1;
  per_mme_burst = pos 1;
  per_ue_suppression = pos 100;
  honor_mme_low_priority_throttling = true;
  low_priority_throttle = pos 0;
  high_priority_bypass = true;
  high_priority = ims_rule ∷ [];
  low_priority = [];
}

abbrev data_candidate : Candidate
data_candidate = record {
  mme_addr = "10.0.0.9";
  imsi = "001010000000001";
  apn = "internet";
  ebi = 5;
  qci = 9;
  arp_priority = 8;
}

abbrev ims_candidate : Candidate
ims_candidate = record data_candidate { apn = "ims"; qci = 5 }

abbrev other_candidate : Candidate
other_candidate = record data_candidate { imsi = "001010000000002" }

-- Letter case is not looked at, and whole seconds are counted.
abbrev fold : String → String → Bool
fold a b = a == b

abbrev seconds : ℕ → ℕ → ℤ
seconds elapsed rate = pos (elapsed / 1000000000 * rate)

-- `decide`, with what a run of it goes through.
run : Candidate → ℕ → State → State × Decision
unfolding decide decide_at classify first_match matches prepared decide_on with_mme mme_of with_ue
    ue_of refill_mme refill_elapsed next_token_delay record_sent record_suppressed record_delayed
    lookup insert
run c at s = decide fold seconds c at 0 s

abbrev start : State
start = new_state config

first_is_sent : (run data_candidate 1000 start).1.action ≡ send_now
unfolding run
first_is_sent = refl

-- The same subscriber within its pause.
second_is_suppressed :
    (run data_candidate 1060 (run data_candidate 1000 start).0).1.action ≡ suppress
unfolding run
second_is_suppressed = refl

-- Another subscriber, when the token has been spent.
third_is_delayed : (run other_candidate 1060 (run data_candidate 1000 start).0).1.action ≡ delay
unfolding run
third_is_delayed = refl

reached-WithinBurst_example : AllWithinBurst (decide fold seconds data_candidate 1000 0 start).0
reached-WithinBurst_example =
    reached-WithinBurst fold seconds (decided data_candidate 1000 0 (created config))

decide-Answer_example :
    Decided config "10.0.0.9"
      (refilled seconds "10.0.0.9" 1000 start)
      (decide fold seconds data_candidate 1000 0 start)
decide-Answer_example = decide-Answer fold seconds data_candidate 1000 0 start refl

decide_high_priority_example : (decide fold seconds ims_candidate 1000 0 start).1.action ≡ send_now
decide_high_priority_example =
    decide_high_priority fold seconds ims_candidate 1000 0 start refl
      (inl (record { apn_fits = inr refl; qci_fits = inl refl; arp_fits = open_range refl refl }))

-- The token of the MME has been spent, so the notification for the other subscriber is delayed.
abbrev after_other : State
after_other =
    (decide fold seconds other_candidate 1030 0
      (decide fold seconds data_candidate 1000 0 start).0).0

other-Quiet :
    Quiet fold seconds data_candidate.imsi
      (decide fold seconds data_candidate 1000 0 start).0
      after_other
other-Quiet = Quiet.decided other_candidate 1030 0 Quiet.start (inl another)
  where
    another : other_candidate.imsi ≢ data_candidate.imsi
    another e =
        let same : false ≡ true =
          (text_keys.same_iff other_candidate.imsi data_candidate.imsi).1 e in
        absurd (cc same)

decide_after_send_example :
    ((decide fold seconds data_candidate 1060 0 after_other).1.action ≡ suppress)
    × ((decide fold seconds data_candidate 1060 0 after_other).1.retry_after ≡ 40)
unfolding run
decide_after_send_example =
    decide_after_send fold seconds data_candidate data_candidate 1000 0 1060 0 99 start after_other
      refl refl (λ e. absurd (omega (arith, e))) first_is_sent other-Quiet refl refl (omega arith)
