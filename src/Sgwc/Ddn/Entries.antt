-- ===== src/Sgwc/Ddn/Entries.antt =====
-- internal/sgwc/ddncontrol/state.go: the entries that the operations leave in the two maps.
use mathlib.Core.Option
use vectorcore_sgw.Common.{ℕ, ◌≡◌, refl, ap, ◌∙◌, String, Option, some, text_keys}
use vectorcore_sgw.Common.Int.{ℤ}
use vectorcore_sgw.Common.Maps.{lookup, lookup-insert_same}
use vectorcore_sgw.Sgwc.Ddn.{
  Priority, Candidate, MmeState, UeState, State, mme_of, with_mme, ue_of, with_ue, record_sent,
  record_suppressed, record_delayed,
}

pub mme_of_known :
    (addr : String) (at : ℕ) (s : State) (m : MmeState)
    → lookup addr s.mmes ≡ some m
    → mme_of addr at s ≡ m
unfolding mme_of
mme_of_known addr at s m e = rw (e, mme_of) refl

pub ue_of_known :
    (imsi : String) (s : State) (u : UeState) → lookup imsi s.ues ≡ some u → ue_of imsi s ≡ u
unfolding ue_of
ue_of_known imsi s u e = rw (e, ue_of) refl

pub lookup-with_mme :
    (addr : String) (at : ℕ) (f : MmeState → MmeState) (s : State)
    → lookup addr (with_mme addr at f s).mmes ≡ some (f (mme_of addr at s))
unfolding with_mme
lookup-with_mme addr at f s = lookup-insert_same addr (f (mme_of addr at s)) s.mmes

pub lookup-with_ue :
    (imsi : String) (f : UeState → UeState) (s : State)
    → lookup imsi (with_ue imsi f s).ues ≡ some (f (ue_of imsi s))
unfolding with_ue
lookup-with_ue imsi f s = lookup-insert_same imsi (f (ue_of imsi s)) s.ues

-- The tokens in the entry of an MME.
abbrev pub tokens_of : String → State → Option ℤ
tokens_of addr s = Option.map (λ (m : MmeState). m.tokens) (lookup addr s.mmes)

tokens-with_mme :
    (addr : String) (at : ℕ) (f : MmeState → MmeState) (s : State) (m : MmeState)
    → lookup addr s.mmes ≡ some m
    → (f m).tokens ≡ m.tokens
    → tokens_of addr (with_mme addr at f s) ≡ some m.tokens
tokens-with_mme addr at f s m e same =
    ap (Option.map (λ (x : MmeState). x.tokens))
      (lookup-with_mme addr at f s ∙ ap (λ x. some (f x)) (mme_of_known addr at s m e))
    ∙ ap some same

pub record_sent-tokens :
    (c : Candidate) (p : Priority) (at : ℕ) (s : State) (m : MmeState)
    → lookup c.mme_addr s.mmes ≡ some m
    → tokens_of c.mme_addr (record_sent c p at s) ≡ some m.tokens
unfolding record_sent with_ue
record_sent-tokens c p at s m e = tokens-with_mme c.mme_addr at _ s m e refl

pub record_suppressed-tokens :
    (c : Candidate) (p : Priority) (now : ℕ) (s : State) (m : MmeState)
    → lookup c.mme_addr s.mmes ≡ some m
    → tokens_of c.mme_addr (record_suppressed c p now s) ≡ some m.tokens
unfolding record_suppressed with_ue
record_suppressed-tokens c p now s m e = tokens-with_mme c.mme_addr now _ s m e refl

pub record_delayed-tokens :
    (c : Candidate) (p : Priority) (now : ℕ) (s : State) (m : MmeState)
    → lookup c.mme_addr s.mmes ≡ some m
    → tokens_of c.mme_addr (record_delayed c p now s) ≡ some m.tokens
unfolding record_delayed with_ue
record_delayed-tokens c p now s m e = tokens-with_mme c.mme_addr now _ s m e refl
