-- ===== src/Parser/Tlvs/Window.antt =====
-- Where the walk of xdp2_parse_tlvs goes: it ends, it reads inside the packet only, and the TLVs
-- that it finds lie one behind the other inside the window that it was given.
use xdp.Base.{
  ℕ, zero, suc, ◌+◌, ◌-◌, ◌%◌, ◌^◌, ◌≤◌, ◌<◌, ℤ, Bool, true, false, none, some, ◌≡◌, ◌≢◌, ◌⊎◌, inl,
  inr, refl, ◌==◌, sub_size, size_mod, Bool-cases, Option-cases, length, get_elem?-some, is_set,
  arith,
}
use xdp.Parser.Codes.{okay, stop_tlv_length, stop_option_limit}
use xdp.Parser.Types.{Packet, Ptr, TlvsDef}
use xdp.Parser.Tlvs.{is_byte, tlv_length, over_limit}
use xdp.Parser.Tlvs.Scan.{
  Objects, stop, outside, unfinished, object, scan, byte_cases, crash, hit, miss,
}

-- A TLV list whose walk goes on: a TLV has a length function, or a length of its own that is not 0.
abbrev pub Progresses : TlvsDef → Type 0
Progresses d = (is_set d.len ≡ true) ⊎ (0 < d.min_len)

-- The codes that the walk itself ends with.
abbrev pub WalkCode : ℤ → Type 0
WalkCode code = (code ≡ okay) ⊎ (code ≡ stop_option_limit) ⊎ (code ≡ stop_tlv_length)

-- The TLVs lie between `lo` and `hi`, none empty and each behind the last, and the walk has an end.
abbrev pub Within : Ptr → Ptr → Objects → Type 0
Within hi lo (stop code) = WalkCode code
Within hi lo outside = ⊥
Within hi lo unfinished = ⊥
Within hi lo (object cp tlv_len type rest) =
    (lo ≤ cp) × (0 < tlv_len) × (cp + tlv_len ≤ hi) × Within hi (cp + tlv_len) rest

Within-mono : (hi lo lo' : Ptr) (os : Objects) → lo ≤ lo' → Within hi lo' os → Within hi lo os
Within-mono hi lo lo' (stop code) h w = w
Within-mono hi lo lo' outside h w = w
Within-mono hi lo lo' unfinished h w = w
Within-mono hi lo lo' (object cp tlv_len type rest) h w = (omega arith, w.1, w.2, w.3)

pub is_byte-ne-none :
    (enable : Bool) (val : ℕ) (pkt : Packet) (cp : Ptr)
    → cp < length pkt
    → is_byte enable val pkt cp ≢ none
unfolding is_byte
is_byte-ne-none false val pkt cp h e = cc
is_byte-ne-none true val pkt cp h e = ground (arith, get_elem?-some pkt cp h)

-- A length that is accepted fits the list and moves the walk on.
pub tlv_length_bounds :
    (d : TlvsDef) (pkt : Packet) (cp : Ptr) (hlen l : ℕ)
    → Progresses d
    → tlv_length d pkt cp hlen ≡ some l
    → (0 < l) × (l ≤ hlen)
unfolding tlv_length
tlv_length_bounds d pkt cp hlen l p e = ground arith

-- What is left of the window behind its first `l` bytes.
pub window_rest :
    (cp hi : Ptr) (hlen l fuel : ℕ)
    → 0 < l
    → l ≤ hlen
    → hlen < suc fuel
    → hlen < size_mod
    → cp + hlen ≡ hi
    → (sub_size hlen l < fuel)
      × (sub_size hlen l < size_mod)
      × (cp + l + sub_size hlen l ≡ hi)
      × (cp + l ≤ hi)
unfolding sub_size
window_rest cp hi hlen l fuel p q f small e = omega arith

module _ (max_tlvs : ℕ) (d : TlvsDef) (pkt : Packet) (hi : Ptr) (progress : Progresses d)
    (inside : hi ≤ length pkt) where
  -- Given TLVs with a length function or a smallest length above 0, more fuel than bytes, and a window
  -- of less than 2^64 bytes that ends inside the packet, the walk has an end, reads nothing outside the
  -- packet, and finds TLVs inside the window only, each behind the last.
  pub scan-Within :
      (fuel : ℕ) (cp : Ptr) (hlen cnt : ℕ)
      → hlen < fuel
      → hlen < size_mod
      → cp + hlen ≡ hi
      → Within hi cp (scan fuel max_tlvs d pkt cp hlen cnt)
  unfolding scan
  scan-Within zero cp hlen cnt f small e = absurd (omega arith)
  scan-Within (suc fuel) cp hlen cnt f small e = elim (Bool-cases (hlen == 0)) [
    | inl done ↦ rw (done, scan) (inl refl)
    | inr more ↦
        rw (more, scan)
          (elim (byte_cases (is_byte d.pad1_enable d.pad1_val pkt cp)) [
            | crash e' ↦ absurd (is_byte-ne-none d.pad1_enable d.pad1_val pkt cp (ground arith) e')
            | hit e' ↦ rw e' (
                let r = window_rest cp hi hlen 1 fuel (omega arith) (ground arith) f small e in
                Within-mono hi cp (cp + 1) _ (omega arith)
                  (scan-Within fuel (cp + 1) (sub_size hlen 1) cnt r.0 r.1 r.2))
            | miss e' ↦ rw e' (elim (byte_cases (is_byte d.eol_enable d.eol_val pkt cp)) [
              | crash e'' ↦
                  absurd (is_byte-ne-none d.eol_enable d.eol_val pkt cp (ground arith) e'')
              | hit e'' ↦ rw e'' (inl refl)
              | miss e'' ↦ rw e'' (elim (Bool-cases (over_limit max_tlvs ((cnt + 1) % 2 ^ 32))) [
                | inl over ↦ rw over (inr (inl refl))
                | inr fits ↦ rw fits (elim (Option-cases (tlv_length d pkt cp hlen)) [
                  | inl e3 ↦ rw e3 (inr (inr refl))
                  | inr (l, e3) ↦ rw e3 (
                      let b = tlv_length_bounds d pkt cp hlen l progress e3 in
                      let r = window_rest cp hi hlen l fuel b.0 b.1 f small e in
                      (
                        omega arith,
                        b.0,
                        r.3,
                        scan-Within fuel (cp + l) (sub_size hlen l) ((cnt + 1) % 2 ^ 32) r.0 r.1
                            r.2,
                      ))
                ])
              ])
            ])
          ])
  ]

-- How many TLVs a walk finds.
unfoldable pub count : Objects → ℕ
count (stop code) = 0
count outside = 0
count unfinished = 0
count (object cp tlv_len type rest) = suc (count rest)

module _ (max_tlvs : ℕ) (d : TlvsDef) (pkt : Packet) (limited : max_tlvs ≢ 0)
    (wide : max_tlvs < 2 ^ 32 - 1) where
  -- With a limit on the TLVs that is below 2^32 - 1, no more than that many are found, those counted
  -- so far included.
  pub scan-limit :
      (fuel : ℕ) (cp : Ptr) (hlen cnt : ℕ)
      → cnt ≤ max_tlvs
      → cnt + count (scan fuel max_tlvs d pkt cp hlen cnt) ≤ max_tlvs
  unfolding scan count over_limit
  scan-limit zero cp hlen cnt h = omega arith
  scan-limit (suc fuel) cp hlen cnt h =
      let pad = scan-limit fuel (cp + 1) (sub_size hlen 1) cnt h in
      elim (Option-cases (tlv_length d pkt cp hlen)) [
        | inl e ↦ ground (arith, pad)
        | inr (l, e) ↦
            ground (arith, pad, scan-limit fuel (cp + l) (sub_size hlen l) ((cnt + 1) % 2 ^ 32))
      ]
