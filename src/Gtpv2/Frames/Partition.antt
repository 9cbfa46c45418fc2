-- ===== src/Gtpv2/Frames/Partition.antt =====
-- `SplitFrames` of internal/gtpv2/message/message.go: the frames it returns against the payload.
use vectorcore_sgw.Common.{
  ℕ, zero, suc, ◌+◌, ◌<◌, ◌≤◌, ◌≡◌, ◌≢◌, refl, sym, subst, true, false, List, [], ◌∷◌, ◌++◌, length,
  take, drop, ltb, nat_beq, nat_beq_iff, arith, Bool-cases, inl, inr, length-drop, take-append-drop,
  length-take, take_all,
}
use vectorcore_sgw.Common.Results.{Result, ok, err, >>=-eq-ok, >>=-eq-err}
use vectorcore_sgw.Gtpv2.Header.{Header, MessageError, parse_header}
use vectorcore_sgw.Gtpv2.Header.Reads.{parse_header-Accepted, parse_header-take}
use vectorcore_sgw.Gtpv2.Frames.{
  Frame, FrameError, stuck, frame_header, wrap, frame_at, split_round, split_loop, nonempty,
  split_frames,
}

-- The frame holds one message, which is complete and accepted by `ParseHeader`, and says where in the
-- payload it stands.
pub record Whole (offset : ℕ) (f : Frame) : Type 0 where
  pub body : List ℕ
  pub accepted : parse_header f.raw ≡ ok (f.header, body)
  pub length_declared : 4 + f.header.len ≡ length f.raw
  pub starts : f.start ≡ offset
  pub ends : f.end ≡ offset + length f.raw

-- Messages that make up the bytes from `offset` on: every one but the last has the P flag.
abbrev pub Chain : ℕ → List ℕ → List Frame → Type 0
Chain offset b [] = ⊥
Chain offset b (f ∷ []) = Whole offset f × (f.raw ≡ b) × (f.header.piggy_backed ≡ false)
Chain offset b (f ∷ g ∷ fs) =
    Whole offset f
    × (f.header.piggy_backed ≡ true)
    × (f.raw ++ drop (length f.raw) b ≡ b)
    × Chain f.end (drop (length f.raw) b) (g ∷ fs)

frame_at-Whole :
    (offset : ℕ) (rest : List ℕ) (h : Header) (body : List ℕ)
    → parse_header rest ≡ ok (h, body)
    → Whole offset (frame_at offset rest h)
frame_at-Whole offset rest h body e =
    let fits : 4 + h.len ≤ length rest = (parse_header-Accepted rest h body e).fits in
    let long : length (take (4 + h.len) rest) ≡ 4 + h.len =
      omega (arith, length-take (4 + h.len) rest, fits) in
    record {
      body = body;
      accepted = parse_header-take rest h body e;
      length_declared = sym long;
      starts = refl;
      ends = rw long;
    }

wrap-eq-ok {ℓ} :
    {A : Type ℓ} (f : MessageError → FrameError) (m : Result MessageError A) {a : A}
    → wrap f m ≡ ok a
    → m ≡ ok a
wrap-eq-ok f (ok b) h = cc h
wrap-eq-ok f (err d) h = cc

-- How a round that returns frames has gone.
data Round (more : Header → Result FrameError (List Frame)) (offset : ℕ) (rest : List ℕ)
    (h : Header) (frames : List Frame) : Type 0 where
  final :
      4 + h.len ≡ length rest
      → h.piggy_backed ≡ false
      → frames ≡ frame_at offset rest h ∷ []
      → Round more offset rest h frames
  again :
      (fs : List Frame)
      → 4 + h.len < length rest
      → h.piggy_backed ≡ true
      → more h ≡ ok fs
      → frames ≡ frame_at offset rest h ∷ fs
      → Round more offset rest h frames

split_round_ok :
    (more : Header → Result FrameError (List Frame)) (offset : ℕ) (rest : List ℕ) (h : Header)
    (frames : List Frame)
    → split_round more offset rest h ≡ ok frames
    → Round more offset rest h frames
unfolding split_round
split_round_ok more offset rest h frames e = elim (Bool-cases (ltb (length rest) (4 + h.len))) [
  | inl short ↦ cc (rw short at e)
  | inr fits ↦ elim (Bool-cases h.piggy_backed) [
    | inr clear ↦ elim (Bool-cases (nat_beq (4 + h.len) (length rest))) [
      | inl all ↦
          final ((nat_beq_iff (4 + h.len) (length rest)).0 all) clear
            (cc (rw (fits, clear, all) at e))
      | inr part ↦ cc (rw (fits, clear, part) at e)
    ]
    | inl flagged ↦ elim (Bool-cases (nat_beq (4 + h.len) (length rest))) [
      | inl all ↦ cc (rw (fits, flagged, all) at e)
      | inr part ↦
          let (fs, e', m) = >>=-eq-ok (more h) _ (simp (fits, flagged, part) at e) in
          again fs (ground (arith, fits, part)) flagged m (cc e')
    ]
  ]
]

drop-ne-nil : (n : ℕ) (b : List ℕ) → n < length b → drop n b ≢ []
drop-ne-nil zero [] h = λ e. absurd (omega arith)
drop-ne-nil zero (x ∷ b) h = λ e. cc
drop-ne-nil (suc n) [] h = absurd (omega arith)
drop-ne-nil (suc n) (x ∷ b) h = drop-ne-nil n b (omega arith)

Chain-cons :
    (offset : ℕ) (b : List ℕ) (f : Frame) (fs : List Frame)
    → Whole offset f
    → f.header.piggy_backed ≡ true
    → f.raw ++ drop (length f.raw) b ≡ b
    → Chain f.end (drop (length f.raw) b) fs
    → Chain offset b (f ∷ fs)
Chain-cons offset b f [] w p s c = absurd c
Chain-cons offset b f (g ∷ fs) w p s c = (w, p, s, c)

splice :
    (more : Header → Result FrameError (List Frame)) (offset : ℕ) (rest body : List ℕ) (h : Header)
    (frames : List Frame)
    → parse_header rest ≡ ok (h, body)
    → ((fs : List Frame)
        → more h ≡ ok fs
        → 4 + h.len < length rest
        → Chain (offset + (4 + h.len)) (drop (4 + h.len) rest) fs)
    → Round more offset rest h frames
    → Chain offset rest frames
splice more offset rest body h frames p ih (final all clear e) =
    subst (Chain offset rest) (sym e)
      (frame_at-Whole offset rest h body p, take_all (4 + h.len) rest (omega (arith, all)), clear)
splice more offset rest body h frames p ih (again fs part flagged m e) =
    let long : length (take (4 + h.len) rest) ≡ 4 + h.len =
      omega (arith, length-take (4 + h.len) rest, part) in
    subst (Chain offset rest) (sym e) (
      Chain-cons offset rest (frame_at offset rest h) fs (frame_at-Whole offset rest h body p)
        flagged (rw long (take-append-drop (4 + h.len) rest)) (rw long (ih fs m part)))

split_loop-Chain :
    (fuel offset : ℕ) (rest : List ℕ) (frames : List Frame)
    → rest ≢ []
    → split_loop fuel offset rest ≡ ok frames
    → Chain offset rest frames
unfolding split_loop
split_loop-Chain zero offset rest frames n e = cc
split_loop-Chain (suc fuel) offset [] frames n e = absurd (n refl)
split_loop-Chain (suc fuel) offset (x ∷ xs) frames n e =
    let rest : List ℕ = x ∷ xs in
    let ((h, body), e', p) = >>=-eq-ok (wrap frame_header (parse_header (x ∷ xs))) _ e in
    splice _ offset rest body h frames (wrap-eq-ok frame_header (parse_header rest) p)
      (λ fs m part.
        split_loop-Chain fuel (offset + (4 + h.len)) (drop (4 + h.len) rest) fs
          (drop-ne-nil (4 + h.len) rest part) m)
      (split_round_ok _ offset rest h frames e')

nonempty-eq-ok : (fs frames : List Frame) → nonempty fs ≡ ok frames → fs ≡ frames
nonempty-eq-ok [] frames e = cc
nonempty-eq-ok (f ∷ fs) frames e = cc

split_nil : (fuel offset : ℕ) (fs : List Frame) → split_loop fuel offset [] ≡ ok fs → fs ≡ []
unfolding split_loop
split_nil zero offset fs e = cc
split_nil (suc fuel) offset fs e = cc

-- When `SplitFrames` returns frames, they make up the payload exactly: each is one complete message
-- that `ParseHeader` accepts by itself, with its place in the payload; the raw bytes, one after the
-- other, are the payload; and the P flag is set on every frame but the last.
pub split_frames-Chain :
    (b : List ℕ) (frames : List Frame) → split_frames b ≡ ok frames → Chain 0 b frames
unfolding split_frames
split_frames-Chain [] frames e =
    let (fs, e', l) = >>=-eq-ok (split_loop 1 0 []) nonempty e in
    absurd (cc (rw (split_nil 1 0 fs l) at e'))
split_frames-Chain (x ∷ xs) frames e =
    let (fs, e', l) = >>=-eq-ok (split_loop (suc (length (x ∷ xs))) 0 (x ∷ xs)) nonempty e in
    subst (Chain 0 (x ∷ xs)) (nonempty-eq-ok fs frames e')
      (split_loop-Chain (suc (length (x ∷ xs))) 0 (x ∷ xs) fs (λ q. cc) l)

wrap-ne-stuck {ℓ} : {A : Type ℓ} (m : Result MessageError A) → wrap frame_header m ≢ err stuck
wrap-ne-stuck (ok a) = λ e. cc
wrap-ne-stuck (err d) = λ e. cc

-- A round runs out of fuel only if those after it do.
split_round-stuck :
    (more : Header → Result FrameError (List Frame)) (offset : ℕ) (rest : List ℕ) (h : Header)
    → split_round more offset rest h ≡ err stuck
    → more h ≡ err stuck
unfolding split_round
split_round-stuck more offset rest h e = elim (Bool-cases (ltb (length rest) (4 + h.len))) [
  | inl short ↦ absurd (cc (rw short at e))
  | inr fits ↦ elim (Bool-cases h.piggy_backed) [
    | inr clear ↦ elim (Bool-cases (nat_beq (4 + h.len) (length rest))) [
      | inl all ↦ absurd (cc (simp (fits, clear, all) at e))
      | inr part ↦ absurd (cc (simp (fits, clear, part) at e))
    ]
    | inl flagged ↦ elim (Bool-cases (nat_beq (4 + h.len) (length rest))) [
      | inl all ↦ absurd (cc (simp (fits, flagged, all) at e))
      | inr part ↦ elim (>>=-eq-err (more h) _ (simp (fits, flagged, part) at e)) [
        | inl m ↦ m
        | inr (fs, m, q) ↦ absurd (cc q)
      ]
    ]
  ]
]

-- The loop never runs out of fuel: `SplitFrames` returns on every payload.
split_loop-ne-stuck :
    (fuel offset : ℕ) (rest : List ℕ) → length rest < fuel → split_loop fuel offset rest ≢ err stuck
unfolding split_loop
split_loop-ne-stuck zero offset rest h = absurd (omega arith)
split_loop-ne-stuck (suc fuel) offset [] h = λ e. cc
split_loop-ne-stuck (suc fuel) offset (x ∷ xs) h = λ e.
    elim (>>=-eq-err (wrap frame_header (parse_header (x ∷ xs))) _ e) [
      | inl p ↦ wrap-ne-stuck (parse_header (x ∷ xs)) p
      | inr ((hdr, body), p, q) ↦
          split_loop-ne-stuck fuel (offset + (4 + hdr.len)) (drop (4 + hdr.len) (x ∷ xs))
            (omega (arith, length-drop (4 + hdr.len) (x ∷ xs)))
            (split_round-stuck _ offset (x ∷ xs) hdr q)
    ]

nonempty-ne-stuck : (fs : List Frame) → nonempty fs ≢ err stuck
nonempty-ne-stuck [] = λ e. cc
nonempty-ne-stuck (f ∷ fs) = λ e. cc

-- SplitFrames ends on every payload: the fuel of the model is enough.
pub split_frames-ne-stuck : (b : List ℕ) → split_frames b ≢ err stuck
unfolding split_frames
split_frames-ne-stuck b = λ e. elim (>>=-eq-err (split_loop (suc (length b)) 0 b) nonempty e) [
  | inl p ↦ split_loop-ne-stuck (suc (length b)) 0 b (omega arith) p
  | inr (fs, p, q) ↦ nonempty-ne-stuck fs q
]
