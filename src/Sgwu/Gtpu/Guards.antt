-- ===== src/Sgwu/Gtpu/Guards.antt =====
-- internal/sgwu/gtpu/header.go: packets that pass the guards of `Parse`, step by step.
use vectorcore_sgw.Common.{
  ℕ, suc, ◌+◌, ◌-◌, ◌<◌, ◌≤◌, ◌≡◌, refl, ap, subst, ◌∙◌, true, false, not, ◌&&◌, List, [], ◌++◌,
  length, drop, ltb, nat_beq, nat_beq_iff, arith, inl, inr, Bool-cases, length-append, drop-append,
  take-append,
}
use vectorcore_sgw.Common.Bytes.{byte_at, has_bit}
use vectorcore_sgw.Common.Results.{ok}
use vectorcore_sgw.Sgwu.Gtpu.{
  Header, has_opt_fields, version_of, fixed_fields, optional_fields, walk, with_extensions,
  parse_extensions, parse_optional, parse,
}
use vectorcore_sgw.Sgwu.Gtpu.Walk.{Chain, stop, link, walk-Chain}

ge-ltb : (a b : ℕ) → b ≤ a → ltb a b ≡ false
ge-ltb a b h = ground arith

-- The guards of `Parse` up to the declared length.
pub parse_fits :
    (b : List ℕ) (h : Header)
    → 8 ≤ length b
    → version_of (byte_at b 0) ≡ 1
    → has_bit (byte_at b 0) 0x10 ≡ true
    → fixed_fields b ≡ h
    → 8 + h.len ≤ length b
    → parse b ≡ parse_optional h b
unfolding parse
parse_fits b h long version gtp fields fits =
    rw (fields, ge-ltb (length b) 8 long, version, gtp, ge-ltb (length b) (8 + h.len) fits) refl

pub parse_optional_fits :
    (b : List ℕ) (h : Header)
    → has_opt_fields h ≡ true
    → 4 ≤ h.len
    → 8 + h.len ≤ length b
    → parse_optional h b ≡ parse_extensions (optional_fields h b) b (8 + h.len)
unfolding parse_optional
parse_optional_fits b h some_flag room fits =
    rw
      (some_flag, ge-ltb (length b) (8 + 4) (omega arith), ge-ltb (8 + h.len) (8 + 4) (omega arith))
      refl

with_extensions-chain :
    (h : Header) (first ext rest : List ℕ)
    → length first ≡ 12
    → 0 < length ext
    → with_extensions h (first ++ (ext ++ rest)) (length first + length ext)
      ≡ record h { ext_headers = ext }
with_extensions-chain h first ext rest twelve some_octets =
    let longer : ltb 12 (length first + length ext) ≡ true = ground (arith, twelve) in
    let size : length first + length ext - 12 ≡ length ext = omega (arith, twelve) in
    let behind : drop 12 (first ++ (ext ++ rest)) ≡ ext ++ rest =
      rw (← twelve) (drop-append first (ext ++ rest)) in
    rw (longer, size, behind, take-append ext rest) refl

Chain-zero : (ext : List ℕ) (typ : ℕ) → Chain typ ext → typ ≡ 0 → ext ≡ []
Chain-zero _ _ stop e = refl
Chain-zero _ _ (link typ units last content rest some_type positive size c) e = absurd (some_type e)

Chain-positive : (ext : List ℕ) (typ : ℕ) → Chain typ ext → nat_beq typ 0 ≡ false → 0 < length ext
Chain-positive _ _ stop e = absurd (cc e)
Chain-positive _ _ (link typ units last content rest some_type positive size c) e = omega arith

parse_extensions-Chain :
    (h : Header) (first ext rest : List ℕ) (total : ℕ)
    → length first ≡ 12
    → h.e ≡ true
    → h.ext_headers ≡ []
    → 12 + length ext ≤ total
    → Chain h.next_ext_hdr ext
    → parse_extensions h (first ++ (ext ++ rest)) total
      ≡ ok (record h { ext_headers = ext }, 12 + length ext)
unfolding parse_extensions
parse_extensions-Chain h first ext rest total twelve flag no_ext fits c =
    elim (Bool-cases (nat_beq h.next_ext_hdr 0)) [
      | inl none_next ↦
          let ended : (h.e && not (nat_beq h.next_ext_hdr 0)) ≡ false = rw (flag, none_next) refl in
          let empty : ext ≡ [] =
            Chain-zero ext h.next_ext_hdr c ((nat_beq_iff h.next_ext_hdr 0).0 none_next) in
          rw (ended, empty) (ap (λ x. ok (record h { ext_headers = x }, 12)) no_ext)
      | inr some_next ↦
          let enough : length ext < suc (length (first ++ (ext ++ rest))) =
            omega (arith, length-append first (ext ++ rest), length-append ext rest) in
          let walked : walk (suc (length (first ++ (ext ++ rest)))) (first ++ (ext ++ rest)) 12
                total h.next_ext_hdr
              ≡ ok (length first + length ext) =
            subst
              (λ n.
                walk (suc (length (first ++ (ext ++ rest)))) (first ++ (ext ++ rest)) n total
                  h.next_ext_hdr
                ≡ ok (length first + length ext))
              twelve
              (walk-Chain (suc (length (first ++ (ext ++ rest)))) first ext rest h.next_ext_hdr
                total c enough (omega (arith, twelve, fits))) in
          let some_chain : (h.e && not (nat_beq h.next_ext_hdr 0)) ≡ true =
            rw (flag, some_next) refl in
          let read =
            with_extensions-chain h first ext rest twelve
              (Chain-positive ext h.next_ext_hdr c some_next) in
          rw (some_chain, walked)
            (ap (λ x. ok (x, length first + length ext)) read
              ∙ ap (λ n. ok (record h { ext_headers = ext }, n + length ext)) twelve)
    ]

parse_extensions-none :
    (h : Header) (b : List ℕ) (total : ℕ) → h.e ≡ false → parse_extensions h b total ≡ ok (h, 12)
unfolding parse_extensions
parse_extensions-none h b total flag =
    let none : (h.e && not (nat_beq h.next_ext_hdr 0)) ≡ false = rw flag refl in rw none refl

-- The octets behind the opening ones: extension headers and payload.
pub read_extensions :
    (h : Header) (first ext rest : List ℕ) (total : ℕ)
    → length first ≡ 12
    → h.ext_headers ≡ []
    → 12 + length ext ≤ total
    → (h.e ≡ true → Chain h.next_ext_hdr ext)
    → (h.e ≡ false → ext ≡ [])
    → parse_extensions h (first ++ (ext ++ rest)) total
      ≡ ok (record h { ext_headers = ext }, 12 + length ext)
read_extensions h first ext rest total twelve no_ext fits chained unchained =
    elim (Bool-cases h.e) [
      | inl flag ↦
          parse_extensions-Chain h first ext rest total twelve flag no_ext fits (chained flag)
      | inr clear ↦
          parse_extensions-none h (first ++ (ext ++ rest)) total clear
          ∙ rw (unchained clear) (ap (λ x. ok (record h { ext_headers = x }, 12)) no_ext)
    ]
