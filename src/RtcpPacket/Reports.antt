-- ===== src/RtcpPacket/Reports.antt =====
-- The reports of rtsp/mk_rtsp_rtcp_packet.cpp stay inside their buffer.
use lib_media_service.Common.{
  ℕ, zero, suc, ◌+◌, ◌/◌, ◌%◌, ◌≤◌, ◌<◌, ◌≡◌, refl, ap, ◌∙◌, Bool, true, false, Option, none, some,
  List, [], ◌∷◌, ◌++◌, arith, length, replicate, length-append, ltb, leb, ◌==◌, if◌then◌else◌,
  on_some, sub32, byte_at, ok, fail, is_ok, not,
}
use lib_media_service.RtcpPacket.{
  RtcpPacket, Report, over, write_at, sdes_len, create_sdes_packet, add_sdes,
  create_receiver_report, bytes32, rtcp_head,
}

-- A buffer in which nothing but the `n` bytes from `at` on has changed.
pub record Within (at n : ℕ) (old new : List ℕ) : Type 0 where
  pub size : length new ≡ length old
  pub before : (i : ℕ) → i < at → byte_at new i ≡ byte_at old i
  pub behind : (i : ℕ) → at + n ≤ i → byte_at new i ≡ byte_at old i

pub length-over : (buf : List ℕ) (at : ℕ) (new : List ℕ) → length (over buf at new) ≡ length buf
unfolding over
length-over [] at new = refl
length-over (b ∷ buf) (suc at) new = ap suc (length-over buf at new)
length-over (b ∷ buf) zero [] = refl
length-over (b ∷ buf) zero (c ∷ new) = ap suc (length-over buf zero new)

over-before :
    (buf : List ℕ) (at : ℕ) (new : List ℕ) (i : ℕ)
    → i < at
    → byte_at (over buf at new) i ≡ byte_at buf i
unfolding over
over-before [] at new i h = refl
over-before (b ∷ buf) zero new i h = absurd (omega arith)
over-before (b ∷ buf) (suc at) new zero h = refl
over-before (b ∷ buf) (suc at) new (suc i) h = over-before buf at new i (omega arith)

pub over-behind :
    (buf : List ℕ) (at : ℕ) (new : List ℕ) (i : ℕ)
    → at + length new ≤ i
    → byte_at (over buf at new) i ≡ byte_at buf i
unfolding over
over-behind [] at new i h = refl
over-behind (b ∷ buf) zero [] i h = refl
over-behind (b ∷ buf) zero (c ∷ new) zero h = absurd (omega arith)
over-behind (b ∷ buf) zero (c ∷ new) (suc i) h = over-behind buf zero new i (omega arith)
over-behind (b ∷ buf) (suc at) new zero h = absurd (omega arith)
over-behind (b ∷ buf) (suc at) new (suc i) h = over-behind buf at new i (omega arith)

pub write_at-over :
    (buf new : List ℕ) (at : ℕ)
    → at + length new ≤ length buf
    → write_at buf at new ≡ some (over buf at new)
unfolding write_at
write_at-over buf new at h = ground arith

pub over-Within :
    (buf new : List ℕ) (at from n : ℕ)
    → from ≤ at
    → at + length new ≤ from + n
    → Within from n buf (over buf at new)
over-Within buf new at from n h k = record {
  size = length-over buf at new;
  before = λ i l. over-before buf at new i (omega arith);
  behind = λ i l. over-behind buf at new i (omega arith);
}

Within-trans : (at n : ℕ) (a b c : List ℕ) → Within at n a b → Within at n b c → Within at n a c
Within-trans at n a b c h k = record {
  size = k.size ∙ h.size;
  before = λ i l. k.before i l ∙ h.before i l;
  behind = λ i l. k.behind i l ∙ h.behind i l;
}

-- What a report promises that has `max` bytes from `at` on: it is defined, keeps its length to whole
-- words of those bytes, and changes nothing else.
pub data Fits (at max : ℕ) (buf : List ℕ) : Option Report → Type 0 where
  fits :
      (r : Report)
      → r.len ≤ max
      → r.len % 4 ≡ 0
      → Within at max buf r.buf
      → Fits at max buf (some r)

pub same : (at n : ℕ) (buf : List ℕ) → Within at n buf buf
same at n buf = record { size = refl; before = λ i l. refl; behind = λ i l. refl }

pub sdes_len-words :
    (m : RtcpPacket)
    → length m.cname < 1048576
    → (sdes_len m % 4 ≡ 0) × (length m.cname + 12 ≤ sdes_len m) × (sdes_len m ≤ length m.cname + 15)
unfolding sdes_len
sdes_len-words m h = ground arith

pub if-Fits :
    (b : Bool) (at max : ℕ) (buf : List ℕ) {x y : Option Report}
    → (b ≡ true → Fits at max buf x)
    → (b ≡ false → Fits at max buf y)
    → Fits at max buf (if b then x else y)
if-Fits true at max buf h k = h refl
if-Fits false at max buf h k = k refl

-- The source description.
pub create_sdes_packet-Fits :
    (m : RtcpPacket) (buf : List ℕ) (at max : ℕ)
    → length m.cname < 1048576
    → at + max ≤ length buf
    → Fits at max buf (create_sdes_packet m buf at max 0)
unfolding create_sdes_packet
create_sdes_packet-Fits m buf at max h k =
    let words = sdes_len-words m h in
    let new : List ℕ =
      rtcp_head 202 (sdes_len m / 4)
      ++ bytes32 m.reporter_ssrc
      ++ (1 ∷ length m.cname % 256 ∷ [])
      ++ m.cname
      ++ (0 ∷ 0 ∷ []) in
    let size : length new ≡ length m.cname + 12 =
      omega (arith, length-append m.cname (0 ∷ 0 ∷ [])) in
    if-Fits (max == 0) at max buf (λ _. fits _ (omega arith) refl (same at max buf))
      λ _.
        if-Fits (ltb max (sdes_len m)) at max buf (λ _. fits _ (omega arith) refl (same at max buf))
          λ e.
            let room : sdes_len m ≤ max = ground (arith, e) in
            rw (write_at-over buf new at (omega (arith, size, words.1, room))) (
              fits _ room words.0
                (over-Within buf new at at max (omega arith) (omega (arith, size, words.1, room))))

pub add_sdes-Fits :
    (m : RtcpPacket) (buf buf' : List ℕ) (at max : ℕ)
    → length m.cname < 1048576
    → 32 < max
    → max < 4294967296
    → at + max ≤ length buf
    → Within at max buf buf'
    → Fits at max buf (add_sdes m buf' at max 32)
unfolding add_sdes
add_sdes-Fits m buf buf' at max h k w l e =
    go _ (create_sdes_packet-Fits m buf' (at + 32) (sub32 max 32) h (omega (arith, e.size, k, w)))
  where
    inner : (r : Report) → Within (at + 32) (sub32 max 32) buf' r.buf → Within at max buf r.buf
    inner r v = Within-trans at max buf buf' r.buf e (record {
      size = v.size;
      before = λ i l. v.before i (omega arith);
      behind = λ i l. v.behind i (omega (arith, k, w));
    })

    go :
        (x : Option Report)
        → Fits (at + 32) (sub32 max 32) buf' x
        → Fits at max buf (
            on_some x none λ r.
              if not (is_ok r.code)
              then some (record { code = fail; buf = r.buf; len = 0 })
              else some (record { code = ok; buf = r.buf; len = (32 + r.len) % 4294967296 }))
    go none f = elim f [ ]
    go (some _) (fits r a b v) =
        if-Fits (not (is_ok r.code)) at max buf (λ _. fits _ (omega arith) refl (inner r v))
          λ _. fits _ (omega (arith, k, w)) (omega (arith, k, w)) (inner r v)

-- createReceiverReport, given `max` bytes from `at` on of a buffer that has them, writes to no other
-- byte, and reports a length that these bytes have room for, in whole words.
pub create_receiver_report-Fits :
    (m : RtcpPacket) (buf : List ℕ) (at max : ℕ)
    → length m.cname < 1048576
    → max < 4294967296
    → at + max ≤ length buf
    → Fits at max buf (create_receiver_report m buf at max 0)
unfolding create_receiver_report
create_receiver_report-Fits m buf at max h w l =
    let new : List ℕ =
      rtcp_head 201 7 ++ bytes32 m.reporter_ssrc ++ bytes32 m.reportee_ssrc ++ replicate 20 0 in
    if-Fits (leb max 32) at max buf (λ _. fits _ (omega arith) refl (same at max buf))
      λ e.
        let room : 32 < max = ground (arith, e) in
        rw (write_at-over buf new at (omega (arith, room))) (
          add_sdes-Fits m buf (over buf at new) at max h room w l
            (over-Within buf new at at max (omega arith) (omega (arith, room))))
