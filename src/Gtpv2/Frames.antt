-- ===== src/Gtpv2/Frames.antt =====
-- internal/gtpv2/message/message.go: several messages in one UDP payload, by the piggybacking flag.
pub mod Partition
pub mod Piggyback
pub mod Runs
use Prim.Native.Nat.{bit_or}
use vectorcore_sgw.Common.{
  ℕ, zero, suc, ◌+◌, ◌-◌, Bool, true, false, not, ◌||◌, List, [], ◌∷◌, ◌++◌, length, take, drop,
  ltb, nat_beq, if◌then◌else◌,
}
use vectorcore_sgw.Common.Results.{Result, ok, err, ◌>>=◌}
use vectorcore_sgw.Gtpv2.Header.{Header, MessageError, invalid_length, parse_header}

pub record Frame : Type 0 where
  pub header : Header
  pub raw : List ℕ
  pub start : ℕ
  pub end : ℕ

-- The errors of `SplitFrames` and `MarshalPiggybacked`. `stuck` is none: the model's loop ran out of
-- fuel.
pub data FrameError : Type 0 where
  frame_header : MessageError → FrameError
  trailing_bytes : ℕ → FrameError
  piggyback_missing : FrameError
  empty_payload : FrameError
  empty_message : FrameError
  parse_primary : MessageError → FrameError
  parse_piggyback : MessageError → FrameError
  primary_has_flag : FrameError
  piggyback_has_flag : FrameError
  stuck : FrameError

abbrev pub wrap {ℓ} :
    {A : Type ℓ} → (MessageError → FrameError) → Result MessageError A → Result FrameError A
wrap f (ok a) = ok a
wrap f (err e) = err (f e)

-- The frame at the head of `b[offset:]`.
abbrev pub frame_at : ℕ → List ℕ → Header → Frame
frame_at offset rest h = record {
  header = h;
  raw = take (4 + h.len) rest;
  start = offset;
  end = offset + (4 + h.len);
}

abbrev pub is_nil : List ℕ → Bool
is_nil [] = true
is_nil (x ∷ xs) = false

-- One round of the loop of `SplitFrames`, after `ParseHeader` has accepted `rest`, which is
-- `b[offset:]`; `more` is what the rounds after it give.
unfoldable pub split_round :
    (Header → Result FrameError (List Frame)) → ℕ → List ℕ → Header → Result FrameError (List Frame)
split_round more offset rest h =
    if ltb (length rest) (4 + h.len)
    then err (frame_header (invalid_length h))
    else if not h.piggy_backed
    then (if not (nat_beq (4 + h.len) (length rest))
        then err (trailing_bytes (length rest - (4 + h.len)))
        else ok (frame_at offset rest h ∷ []))
    else if nat_beq (4 + h.len) (length rest)
    then err piggyback_missing
    else more h >>= λ frames. ok (frame_at offset rest h ∷ frames)

-- Each round takes eight bytes at least.
unfoldable pub split_loop : ℕ → ℕ → List ℕ → Result FrameError (List Frame)
split_loop zero offset rest = err stuck
split_loop (suc fuel) offset rest =
    if is_nil rest
    then ok []
    else wrap frame_header (parse_header rest) >>= λ r.
        split_round (λ h. split_loop fuel (offset + (4 + h.len)) (drop (4 + h.len) rest)) offset
          rest r.0

abbrev pub nonempty : List Frame → Result FrameError (List Frame)
nonempty [] = err empty_payload
nonempty (f ∷ fs) = ok (f ∷ fs)

unfoldable pub split_frames : List ℕ → Result FrameError (List Frame)
split_frames b = split_loop (suc (length b)) 0 b >>= nonempty

-- `out[0] |= 0x10`
abbrev pub set_piggyback_flag : List ℕ → List ℕ
set_piggyback_flag [] = []
set_piggyback_flag (first ∷ b) = bit_or first 0x10 ∷ b

unfoldable pub marshal_piggybacked : List ℕ → List ℕ → Result FrameError (List ℕ)
marshal_piggybacked primary piggyback =
    if is_nil primary || is_nil piggyback
    then err empty_message
    else wrap parse_primary (parse_header primary) >>= λ p.
        if p.0.piggy_backed
        then err primary_has_flag
        else wrap parse_piggyback (parse_header piggyback) >>= λ q.
            if q.0.piggy_backed
            then err piggyback_has_flag
            else ok (set_piggyback_flag primary ++ piggyback)
