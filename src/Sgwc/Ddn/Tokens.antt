-- ===== src/Sgwc/Ddn/Tokens.antt =====
-- internal/sgwc/ddncontrol/state.go: the token bucket of an MME and its burst.
use vectorcore_sgw.Common.{
  ℕ, suc, ◌+◌, ◌-◌, ◌*◌, ◌/◌, ◌≡◌, String, Bool, true, false, not, ◌&&◌, All, text_keys, leb,
  nat_beq, if◌then◌else◌, arith, inl, inr, Bool-cases, Option-cases,
}
use vectorcore_sgw.Common.Int.{ℤ, pos, negsuc, ltb_ℤ, non_positive}
use vectorcore_sgw.Common.Maps.{lookup, lookup-All, insert-All}
use vectorcore_sgw.Sgwc.Ddn.{
  Priority, is_high, Config, Candidate, MmeState, UeState, State, new_state, mme_of, with_mme,
  ue_of, with_ue, capped, add_ℕ, with_defaults, positive_rate, refill_elapsed, refill_mme,
  record_sent, record_suppressed, record_delayed, mark_mme_low_priority_throttled,
}
use vectorcore_sgw.Sgwc.Ddn.Decide.{
  Decision, in_suppression, in_throttling, spend, decide_on, decide_at, decide, prepared, classify,
  or_now, record_suppressed_at, record_delayed_at,
}

-- No more tokens than the burst.
abbrev pub WithinBurst : MmeState → Type 0
WithinBurst m = ltb_ℤ m.burst m.tokens ≡ false

self-ltb_ℤ : (x : ℤ) → ltb_ℤ x x ≡ false
self-ltb_ℤ (pos n) = ground arith
self-ltb_ℤ (negsuc n) = ground arith

capped-WithinBurst : (m : MmeState) → WithinBurst (capped m)
capped-WithinBurst m = elim (Bool-cases (ltb_ℤ m.burst m.tokens)) [
  | inl over ↦ rw over (self-ltb_ℤ m.burst)
  | inr fits ↦ rw fits fits
]

refill_elapsed-WithinBurst :
    (tokens_in : ℕ → ℕ → ℤ) (rate at : ℕ) (m : MmeState)
    → WithinBurst m
    → WithinBurst (refill_elapsed tokens_in rate at m)
unfolding refill_elapsed
refill_elapsed-WithinBurst tokens_in rate at m h = elim (Bool-cases (nat_beq m.last_refill_at 0)) [
  | inl unset ↦ rw unset h
  | inr set ↦ elim (Bool-cases (leb at m.last_refill_at)) [
    | inl early ↦ rw (set, early) h
    | inr late ↦ rw (set, late) (added (tokens_in (at - m.last_refill_at) rate))
  ]
]
  where
    added :
        (t : ℤ)
        → WithinBurst (elim t [
          | negsuc n ↦ m
          | pos add ↦
              if nat_beq add 0
              then m
              else record (capped (record m { tokens = add_ℕ m.tokens add })) {
                last_refill_at = m.last_refill_at + add * 1000000000 / rate;
              }
        ])
    added (negsuc n) = h
    added (pos add) = elim (Bool-cases (nat_beq add 0)) [
      | inl none_new ↦ rw none_new h
      | inr some_new ↦ rw some_new (capped-WithinBurst (record m { tokens = add_ℕ m.tokens add }))
    ]

refill_mme-WithinBurst :
    (tokens_in : ℕ → ℕ → ℤ) (cfg : Config) (at : ℕ) (m : MmeState)
    → WithinBurst (refill_mme tokens_in cfg at m)
unfolding refill_mme
refill_mme-WithinBurst tokens_in cfg at m =
    refill_elapsed-WithinBurst tokens_in (positive_rate cfg.per_mme_rate_limit) at
      (capped (with_defaults cfg m)) (capped-WithinBurst (with_defaults cfg m))

one_less : (b : ℤ) (n : ℕ) → ltb_ℤ b (pos n) ≡ false → ltb_ℤ b (pos (n - 1)) ≡ false
one_less (pos b) n h = ground arith
one_less (negsuc b) n h = ground arith

one_more_owed : (b : ℤ) (n : ℕ) → ltb_ℤ b (negsuc n) ≡ false → ltb_ℤ b (negsuc (suc n)) ≡ false
one_more_owed (pos b) n h = ground arith
one_more_owed (negsuc b) n h = ground arith

spend-WithinBurst : (m : MmeState) → WithinBurst m → WithinBurst (spend m)
spend-WithinBurst m h = by_tokens m.tokens h
  where
    by_tokens :
        (t : ℤ)
        → ltb_ℤ m.burst t ≡ false
        → WithinBurst (elim t [
          | pos n ↦ record m { tokens = pos (n - 1) }
          | negsuc n ↦ record m { tokens = negsuc (suc n) }
        ])
    by_tokens (pos n) h = one_less m.burst n h
    by_tokens (negsuc n) h = one_more_owed m.burst n h

-- Every entry of the map.
abbrev pub AllWithinBurst : State → Type 0
AllWithinBurst s = All (λ (entry : String × MmeState). WithinBurst entry.1) s.mmes

mme_of-WithinBurst :
    (addr : String) (at : ℕ) (s : State) → AllWithinBurst s → WithinBurst (mme_of addr at s)
unfolding mme_of
mme_of-WithinBurst addr at s h = elim (Option-cases (lookup addr s.mmes)) [
  | inl absent ↦ rw (absent, mme_of) (self-ltb_ℤ s.cfg.per_mme_burst)
  | inr there ↦
      rw (there.1, mme_of)
        (lookup-All (λ (entry : String × MmeState). WithinBurst entry.1) addr s.mmes h there.1)
]

with_mme-WithinBurst :
    (addr : String) (at : ℕ) (f : MmeState → MmeState) (s : State)
    → ((m : MmeState) → WithinBurst m → WithinBurst (f m))
    → AllWithinBurst s
    → AllWithinBurst (with_mme addr at f s)
unfolding with_mme
with_mme-WithinBurst addr at f s keeps h =
    insert-All (λ (entry : String × MmeState). WithinBurst entry.1) addr (f (mme_of addr at s))
      s.mmes (keeps (mme_of addr at s) (mme_of-WithinBurst addr at s h)) h

record_sent-WithinBurst :
    (c : Candidate) (p : Priority) (at : ℕ) (s : State)
    → AllWithinBurst s
    → AllWithinBurst (record_sent c p at s)
unfolding record_sent with_ue
record_sent-WithinBurst c p at s h = with_mme-WithinBurst c.mme_addr at _ s (λ m k. k) h

record_suppressed-WithinBurst :
    (c : Candidate) (p : Priority) (now : ℕ) (s : State)
    → AllWithinBurst s
    → AllWithinBurst (record_suppressed c p now s)
unfolding record_suppressed with_ue
record_suppressed-WithinBurst c p now s h = with_mme-WithinBurst c.mme_addr now _ s (λ m k. k) h

record_delayed-WithinBurst :
    (c : Candidate) (p : Priority) (now : ℕ) (s : State)
    → AllWithinBurst s
    → AllWithinBurst (record_delayed c p now s)
unfolding record_delayed with_ue
record_delayed-WithinBurst c p now s h = with_mme-WithinBurst c.mme_addr now _ s (λ m k. k) h

decide_on-WithinBurst :
    (c : Candidate) (p : Priority) (reason : String) (at now : ℕ) (m : MmeState) (u : UeState)
    (s : State)
    → AllWithinBurst s
    → AllWithinBurst (decide_on c p reason at now m u s).0
unfolding decide_on
decide_on-WithinBurst c p reason at now m u s h = elim (Bool-cases (in_suppression s.cfg p u at)) [
  | inl window ↦ rw window (record_suppressed-WithinBurst c p now s h)
  | inr free ↦ elim (Bool-cases (in_throttling s.cfg p m at)) [
    | inl throttled ↦ rw (free, throttled) (record_suppressed-WithinBurst c p now s h)
    | inr clear ↦ elim (Bool-cases (non_positive m.tokens)) [
      | inr some_token ↦
          rw (free, clear, some_token)
            (record_sent-WithinBurst c p at (with_mme c.mme_addr at spend s)
              (with_mme-WithinBurst c.mme_addr at spend s spend-WithinBurst h))
      | inl empty ↦ elim (Bool-cases (is_high p && s.cfg.high_priority_bypass)) [
        | inl allowed ↦ rw (free, clear, empty, allowed) (record_sent-WithinBurst c p at s h)
        | inr refused ↦ rw (free, clear, empty, refused) (record_delayed-WithinBurst c p now s h)
      ]
    ]
  ]
]

prepared-WithinBurst :
    (tokens_in : ℕ → ℕ → ℤ) (c : Candidate) (at : ℕ) (s : State)
    → AllWithinBurst s
    → AllWithinBurst (prepared tokens_in c at s)
unfolding prepared with_ue
prepared-WithinBurst tokens_in c at s h =
    with_mme-WithinBurst c.mme_addr at (refill_mme tokens_in s.cfg at) s
      (λ m k. refill_mme-WithinBurst tokens_in s.cfg at m) h

decide_at-WithinBurst :
    (equal_fold : String → String → Bool) (tokens_in : ℕ → ℕ → ℤ) (c : Candidate) (at now : ℕ)
    (s : State)
    → AllWithinBurst s
    → AllWithinBurst (decide_at equal_fold tokens_in c at now s).0
unfolding decide_at
decide_at-WithinBurst equal_fold tokens_in c at now s h =
    either s.cfg.enabled _ _ (record_sent-WithinBurst c (classify equal_fold s.cfg c).0 at s h) (
      decide_on-WithinBurst c (classify equal_fold s.cfg c).0 (classify equal_fold s.cfg c).1 at now
        (mme_of c.mme_addr at (prepared tokens_in c at s))
        (ue_of c.imsi (prepared tokens_in c at s)) (prepared tokens_in c at s)
        (prepared-WithinBurst tokens_in c at s h))
  where
    either :
        (b : Bool) (x y : State × Decision)
        → AllWithinBurst x.0
        → AllWithinBurst y.0
        → AllWithinBurst (if not b then x else y).0
    either true x y hx hy = hy
    either false x y hx hy = hx

-- The states that calls of the methods lead to, in any order and with any times.
pub data Reach (equal_fold : String → String → Bool) (tokens_in : ℕ → ℕ → ℤ) : State → Type 0 where
  created : (cfg : Config) → Reach equal_fold tokens_in (new_state cfg)
  decided :
      {s : State} (c : Candidate) (at now : ℕ)
      → Reach equal_fold tokens_in s
      → Reach equal_fold tokens_in (decide equal_fold tokens_in c at now s).0
  sent :
      {s : State} (c : Candidate) (p : Priority) (at now : ℕ)
      → Reach equal_fold tokens_in s
      → Reach equal_fold tokens_in (record_sent c p (or_now at now) s)
  suppressed :
      {s : State} (c : Candidate) (p : Priority) (at now : ℕ)
      → Reach equal_fold tokens_in s
      → Reach equal_fold tokens_in (record_suppressed_at c p at now s)
  delayed :
      {s : State} (c : Candidate) (p : Priority) (at now : ℕ)
      → Reach equal_fold tokens_in s
      → Reach equal_fold tokens_in (record_delayed_at c p at now s)
  throttled :
      {s : State} (addr reason : String) (until at now : ℕ)
      → Reach equal_fold tokens_in s
      → Reach equal_fold tokens_in
          (mark_mme_low_priority_throttled addr reason until (or_now at now) s)

-- In every state that calls of the methods lead to, whatever the refill computes and however the
-- clock runs, no MME has more tokens than its burst.
pub reached-WithinBurst :
    (equal_fold : String → String → Bool) (tokens_in : ℕ → ℕ → ℤ) {s : State}
    → Reach equal_fold tokens_in s
    → AllWithinBurst s
unfolding decide record_suppressed_at record_delayed_at mark_mme_low_priority_throttled
reached-WithinBurst equal_fold tokens_in (created cfg) = tt
reached-WithinBurst equal_fold tokens_in (decided {s} c at now r) =
    decide_at-WithinBurst equal_fold tokens_in c (or_now at now) now s
      (reached-WithinBurst equal_fold tokens_in r)
reached-WithinBurst equal_fold tokens_in (sent {s} c p at now r) =
    record_sent-WithinBurst c p (or_now at now) s (reached-WithinBurst equal_fold tokens_in r)
reached-WithinBurst equal_fold tokens_in (suppressed {s} c p at now r) =
    record_suppressed-WithinBurst c p now _ (
      with_mme-WithinBurst c.mme_addr (or_now at now) (λ mme. mme) s (λ m k. k)
        (reached-WithinBurst equal_fold tokens_in r))
reached-WithinBurst equal_fold tokens_in (delayed {s} c p at now r) =
    record_delayed-WithinBurst c p now _ (
      with_mme-WithinBurst c.mme_addr (or_now at now) (λ mme. mme) s (λ m k. k)
        (reached-WithinBurst equal_fold tokens_in r))
reached-WithinBurst equal_fold tokens_in (throttled {s} addr reason until at now r) =
    with_mme-WithinBurst addr (or_now at now) _ s (λ m k. k)
      (reached-WithinBurst equal_fold tokens_in r)
