-- ===== src/Gtpv2/Frames/Piggyback.antt =====
-- `MarshalPiggybacked` and `SplitFrames` of internal/gtpv2/message/message.go together.
use Prim.Native.Nat.add
use Prim.Native.Nat.{bit_or}
use vectorcore_sgw.Common.{
  ℕ, zero, suc, ◌+◌, ◌<◌, ◌≡◌, refl, sym, ap, ◌∙◌, Bool, true, false, ◌&&◌, List, [], ◌∷◌, ◌++◌,
  length, take, drop, nat_beq, nat_beq_iff, arith, Bool-cases, inl, inr, length-append, not,
  take-append, drop-append, take_all, le-ltb, lt-nat_beq,
}
use vectorcore_sgw.Common.Bytes.{IsByte, has_bit, byte_table, byte_table_lem}
use vectorcore_sgw.Common.Results.{Result, ok, ◌>>=◌}
use vectorcore_sgw.Gtpv2.Header.{
  Header, min_header_size, version_of, read_header, read_with_teid, read_without_teid, parse_header,
}
use vectorcore_sgw.Gtpv2.Header.Reads.{
  Accepted, parse_header-Accepted, Accepted-parse_header, parse_header-append,
}
use vectorcore_sgw.Gtpv2.Frames.{
  Frame, FrameError, frame_at, split_round, split_loop, split_frames, set_piggyback_flag,
  marshal_piggybacked,
}

-- What the P flag does to the first octet.
record Flagged (x : ℕ) : Type 0 where
  version : version_of (bit_or x 0x10) ≡ version_of x
  teid : has_bit (bit_or x 0x10) 0x08 ≡ has_bit x 0x08
  mp : has_bit (bit_or x 0x10) 0x04 ≡ has_bit x 0x04
  piggy_backed : has_bit (bit_or x 0x10) 0x10 ≡ true

same_bool : Bool → Bool → Bool
same_bool true b = b
same_bool false b = not b

same_bool-eq : (a b : Bool) → same_bool a b ≡ true → a ≡ b
unfolding same_bool
same_bool-eq a b h = ground arith

abbrev flag_keeps : ℕ → Bool
flag_keeps x =
    nat_beq (version_of (bit_or x 0x10)) (version_of x)
    && (same_bool (has_bit (bit_or x 0x10) 0x08) (has_bit x 0x08)
        && (same_bool (has_bit (bit_or x 0x10) 0x04) (has_bit x 0x04)
            && has_bit (bit_or x 0x10) 0x10))

flag_keeps_table : byte_table flag_keeps ≡ true
unfolding byte_table same_bool
flag_keeps_table = refl

flagged : (x : ℕ) → x < 256 → Flagged x
flagged x h =
    let t : flag_keeps x ≡ true = byte_table_lem flag_keeps x flag_keeps_table h in
    ground (
      arith,
      t,
      same_bool-eq (has_bit (bit_or x 0x10) 0x08) (has_bit x 0x08),
      same_bool-eq (has_bit (bit_or x 0x10) 0x04) (has_bit x 0x04),
    )

read-flagged :
    (x : ℕ) (b : List ℕ)
    → x < 256
    → read_header (bit_or x 0x10 ∷ b) ≡ record (read_header (x ∷ b)) { piggy_backed = true }
unfolding read_header read_with_teid read_without_teid
read-flagged x b h =
    let f : Flagged x = flagged x h in
    rw (f.version, f.teid, f.mp, f.piggy_backed)
      (elim (Bool-cases (has_bit x 0x08)) [ inl teid ↦ rw teid | inr plain ↦ rw plain ])

drop-take_tail :
    (k n : ℕ) (x y : ℕ) (b : List ℕ) → 0 < k → drop k (take n (x ∷ b)) ≡ drop k (take n (y ∷ b))
drop-take_tail zero n x y b h = absurd (omega arith)
drop-take_tail (suc k) zero x y b h = refl
drop-take_tail (suc k) (suc n) x y b h = refl

size_positive : (t : Bool) → 0 < min_header_size t
size_positive true = omega arith
size_positive false = omega arith

parse-flagged :
    (x : ℕ) (b body : List ℕ) (h : Header)
    → x < 256
    → parse_header (x ∷ b) ≡ ok (h, body)
    → parse_header (bit_or x 0x10 ∷ b) ≡ ok (record h { piggy_backed = true }, body)
parse-flagged x b body h byte e =
    let a : Accepted (x ∷ b) h body = parse_header-Accepted (x ∷ b) h body e in
    let f : Flagged x = flagged x byte in
    Accepted-parse_header (bit_or x 0x10 ∷ b) (record h { piggy_backed = true }) body
      (record {
        version = f.version ∙ a.version;
        complete = rw f.teid a.complete;
        header =
            ap {A = Header} (λ g. record g { piggy_backed = true }) a.header
            ∙ sym (read-flagged x b byte);
        size = a.size;
        fits = a.fits;
        bounded =
            a.bounded
            ∙ drop-take_tail (min_header_size h.has_teid) (4 + h.len) x (bit_or x 0x10) b
                (size_positive h.has_teid);
      })

-- The two ways on of a round that fits.
round_more :
    (more : Header → Result FrameError (List Frame)) (offset : ℕ) (rest : List ℕ) (h : Header)
    → 4 + h.len < length rest
    → h.piggy_backed ≡ true
    → split_round more offset rest h ≡ (more h >>= λ frames. ok (frame_at offset rest h ∷ frames))
unfolding split_round
round_more more offset rest h part flag = simp (
  le-ltb (length rest) (4 + h.len) (omega (arith, part)),
  flag,
  lt-nat_beq (4 + h.len) (length rest) part,
)

round_last :
    (more : Header → Result FrameError (List Frame)) (offset : ℕ) (rest : List ℕ) (h : Header)
    → 4 + h.len ≡ length rest
    → h.piggy_backed ≡ false
    → split_round more offset rest h ≡ ok (frame_at offset rest h ∷ [])
unfolding split_round
round_last more offset rest h all clear = simp (
  le-ltb (length rest) (4 + h.len) (omega (arith, all)),
  clear,
  (nat_beq_iff (4 + h.len) (length rest)).1 all,
)

-- A message without bytes behind it and without the P flag.
pub record IsSingle (b : List ℕ) (h : Header) : Type 0 where
  pub body : List ℕ
  pub accepted : parse_header b ≡ ok (h, body)
  pub exact : 4 + h.len ≡ length b
  pub final : h.piggy_backed ≡ false

split_last :
    (fuel offset : ℕ) (b : List ℕ) (h : Header)
    → IsSingle b h
    → split_loop (suc fuel) offset b
      ≡ ok (record { header = h; raw = b; start = offset; end = offset + length b } ∷ [])
unfolding split_loop
split_last fuel offset [] h s = absurd (omega (arith, s.exact))
split_last fuel offset (x ∷ xs) h s = rw (
  s.accepted,
  round_last _ offset (x ∷ xs) h s.exact s.final,
  s.exact,
  take_all (length (x ∷ xs)) (x ∷ xs) (omega arith),
)

marshal_singles :
    (x y : ℕ) (xs ys : List ℕ) (h g : Header)
    → IsSingle (x ∷ xs) h
    → IsSingle (y ∷ ys) g
    → marshal_piggybacked (x ∷ xs) (y ∷ ys) ≡ ok (bit_or x 0x10 ∷ (xs ++ (y ∷ ys)))
unfolding marshal_piggybacked
marshal_singles x y xs ys h g p q = simp (p.accepted, p.final, q.accepted, q.final)

-- The first frame of a flagged message in front of others.
split_first :
    (fuel x y : ℕ) (xs ys : List ℕ) (h : Header)
    → IsByte x
    → IsSingle (x ∷ xs) h
    → split_loop (suc fuel) 0 (bit_or x 0x10 ∷ (xs ++ (y ∷ ys))) ≡ (
        split_loop fuel (length (x ∷ xs)) (y ∷ ys) >>= λ frames. ok (
          record {
            header = record h { piggy_backed = true };
            raw = bit_or x 0x10 ∷ xs;
            start = 0;
            end = length (x ∷ xs);
          }
          ∷ frames))
unfolding split_loop
split_first fuel x y xs ys h byte p =
    let first : List ℕ = bit_or x 0x10 ∷ xs in
    let size : 4 + h.len ≡ length first = p.exact in
    rw (
      parse_header-append first (y ∷ ys) (record h { piggy_backed = true }) p.body
          (parse-flagged x xs p.body h byte p.accepted),
      round_more _ 0 (first ++ (y ∷ ys)) (record h { piggy_backed = true })
          (omega (arith, size, length-append first (y ∷ ys))) refl,
      size,
      take-append first (y ∷ ys),
      drop-append first (y ∷ ys),
      add.zero (length first),
    )

-- What `MarshalPiggybacked` makes of two messages that are complete, exact and without the P flag is
-- split into these two: the first with its flag set and nothing else changed, then the second, each
-- with its place in the payload.
pub split_frames-marshal_piggybacked :
    (x : ℕ) (xs piggyback : List ℕ) (h g : Header)
    → IsByte x
    → IsSingle (x ∷ xs) h
    → IsSingle piggyback g
    → (marshal_piggybacked (x ∷ xs) piggyback >>= split_frames)
      ≡ ok (
          record {
            header = record h { piggy_backed = true };
            raw = set_piggyback_flag (x ∷ xs);
            start = 0;
            end = length (x ∷ xs);
          }
          ∷ record {
            header = g;
            raw = piggyback;
            start = length (x ∷ xs);
            end = length (x ∷ xs) + length piggyback;
          }
          ∷ [])
unfolding split_frames
split_frames-marshal_piggybacked x xs [] h g byte p q = absurd (omega (arith, q.exact))
split_frames-marshal_piggybacked x xs (y ∷ ys) h g byte p q = rw (
  marshal_singles x y xs ys h g p q,
  split_first (length (bit_or x 0x10 ∷ (xs ++ (y ∷ ys)))) x y xs ys h byte p,
  split_last (length (xs ++ (y ∷ ys))) (length (x ∷ xs)) (y ∷ ys) g q,
)
