-- ===== src/Depacketizer/Total.antt =====
-- The loops of the frame handlers of rtsp/mk_rtsp_connection.cpp on packets without padding: no copy
-- leaves its receive buffer, and no write a buffer that has room for the payloads.
use lib_media_service.Common.{
  ap, byte_at, length-append, length-take, length-drop, ◌++◌, ℕ, ◌+◌, ◌-◌, ◌≤◌, ◌<◌, ◌≡◌, ◌≢◌, refl,
  ◌∙◌, Bool, true, false, Option, some, List, [], ◌∷◌, All, arith, length, leb, if◌then◌else◌,
  ok_of_is_ok, take, drop, sub32,
}
use lib_media_service.RtpPacket.{RtpPacket, new_rtp_packet, parse_packet}
use lib_media_service.RtpPacket.FixedHead
use lib_media_service.RtpPacket.Parse.{IsRtp, head_size, parse_packet-ok, parse_packet-ok_iff}
use lib_media_service.RtpPacket.Stale.{tail_len-parse_packet}
use lib_media_service.Organizer.Frames.{RtpPackInfo}
use lib_media_service.Client.{MediaType, MediaCallBack}
use lib_media_service.Depacketizer.Payload.{put-fits}
use lib_media_service.Depacketizer.{
  put, start_code, nal_header, h265_header, copy, payload_len, single_packet, h264_loop, h265_loop,
  other_loop, ◌>>=◌,
}

-- An RTP packet without padding, in a buffer of its length or more, with three bytes of payload or
-- more.
pub record IsPlain (bytes : List ℕ) (len : ℕ) : Type 0 where
  pub rtp : IsRtp bytes len
  pub loaded : head_size bytes + 3 ≤ len
  pub inside : len ≤ length bytes
  pub small : len < 65536
  pub unpadded : FixedHead.padding bytes ≢ 1

abbrev pub Plain : RtpPackInfo → Type 0
Plain p = IsPlain p.block.bytes p.len

-- There is a result.
pub data Returns {ℓ} {A : Type ℓ} : Option A → Type ℓ where
  returns : (a : A) → Returns (some a)

pub copy-some :
    (bs : List ℕ) (from n : ℕ)
    → from + n ≤ length bs
    → (payload : List ℕ) × (copy bs from n ≡ some payload) × (length payload ≡ n)
unfolding copy
copy-some bs from n h =
    let inside : leb (from + n) (length bs) ≡ true = ground arith in
    let size : length (take n (drop from bs)) ≡ n =
      omega (arith, h, length-take n (drop from bs), length-drop from bs) in
    (take n (drop from bs), rw inside refl, size)

pub bind-Returns {ℓ κ} :
    {A : Type ℓ} {B : Type κ} (o : Option A) (f : A → Option B)
    → Returns o
    → ((a : A) → Returns (f a))
    → Returns (o >>= f)
bind-Returns o f (returns a) h = h a

pub if-Returns {ℓ} :
    {A : Type ℓ} (b : Bool) (x y : Option A) → Returns x → Returns y → Returns (if b then x else y)
if-Returns true x y h k = h
if-Returns false x y h k = k

-- What ParsePacket makes of such a packet, in an object that has met no padding.
pub record IsPlainly (packet : RtpPacket) (bytes : List ℕ) (len : ℕ) : Type 0 where
  pub untailed : (parse_packet packet (some bytes) len).1.tail_len ≡ 0
  pub at : (parse_packet packet (some bytes) len).1.head_len ≡ head_size bytes
  pub size : payload_len (parse_packet packet (some bytes) len).1 len ≡ len - head_size bytes

pub IsPlain-IsPlainly :
    (packet : RtpPacket) (bytes : List ℕ) (len : ℕ)
    → IsPlain bytes len
    → packet.tail_len ≡ 0
    → IsPlainly packet bytes len
IsPlain-IsPlainly packet bytes len h t =
    let good = ok_of_is_ok _ ((parse_packet-ok_iff packet bytes len).1 h.rtp) in
    let (headed, fits, same, length, fixed) = parse_packet-ok packet bytes len good in
    let long : 12 ≤ len = omega (arith, h.loaded) in
    let tail = (tail_len-parse_packet packet bytes len long).0 h.unpadded ∙ t in
    record { untailed = tail; at = headed; size = omega (arith, headed, tail, h.loaded, h.small) }

-- The payload of a packet without padding.
abbrev pub load_size : RtpPackInfo → ℕ
load_size p = p.len - head_size p.block.bytes

abbrev pub loads : List RtpPackInfo → ℕ
loads [] = 0
loads (p ∷ ps) = load_size p + loads ps

-- A copy from inside a receive buffer into a buffer that has room for it.
pub fill-Returns {ℓ} :
    {A : Type ℓ} (bs : List ℕ) (from n room : ℕ) (buf : List ℕ) (k : List ℕ → Option A)
    → from + n ≤ length bs
    → length buf + n ≤ room
    → ((filled : List ℕ) → length filled ≡ length buf + n → Returns (k filled))
    → Returns (copy bs from n >>= λ payload. put room buf payload >>= k)
fill-Returns bs from n room buf k h fits next =
    let (payload, copied, size) = copy-some bs from n h in
    rw (copied, put-fits room buf payload (rw size fits))
      (next (buf ++ payload) (length-append buf payload ∙ ap (λ m. length buf + m) size))

pub start-Returns {ℓ} :
    {A : Type ℓ} (room : ℕ) (k : List ℕ → Option A)
    → 4 ≤ room
    → Returns (k start_code)
    → Returns (put room [] start_code >>= k)
start-Returns room k h next = rw (put-fits room [] start_code h) next

front-length :
    (b : Bool) (buf more : List ℕ)
    → length (if b then buf ++ more else buf) ≤ length buf + length more
front-length true buf more = omega (arith, length-append buf more)
front-length false buf more = omega arith

-- A piece of the payload less its first `skip` bytes, behind at most `skip` bytes more.
within :
    (at size head skip len bound old front rest room : ℕ)
    → at ≡ head
    → size ≡ len - head
    → head + 3 ≤ len
    → len ≤ bound
    → len < 65536
    → skip ≤ 3
    → front ≤ old + skip
    → old + ((len - head) + rest) ≤ room
    → (at + skip + sub32 size skip ≤ bound)
      × (front + sub32 size skip ≤ room)
      × (front + sub32 size skip + rest ≤ room)
within at size head skip len bound old front rest room e f g h k l m n =
    (omega arith, omega arith, omega arith)

pub h264_loop-Returns :
    (cb : MediaCallBack) (room : ℕ) (packet : RtpPacket) (first : Bool) (ts : ℕ) (buf : List ℕ)
    (ps : List RtpPackInfo)
    → packet.tail_len ≡ 0
    → All Plain ps
    → length buf + loads ps ≤ room
    → Returns (h264_loop cb room packet first ts buf ps)
unfolding h264_loop
h264_loop-Returns cb room packet first ts buf [] t h fits = returns _
h264_loop-Returns cb room packet first ts buf (p ∷ ps) t h fits =
    let r = IsPlain-IsPlainly packet p.block.bytes p.len h.0 t in
    let at = (parse_packet packet (some p.block.bytes) p.len).1.head_len in
    let header = nal_header (byte_at p.block.bytes at) (byte_at p.block.bytes (at + 1)) in
    let grown = front-length first buf (header ∷ []) in
    let (inside, now, later) =
      within _ _ _ 2 _ _ (length buf) _ (loads ps) room r.at r.size h.0.loaded h.0.inside h.0.small
        (omega arith) (omega (arith, grown)) fits in
    if-Returns _ _ _ (returns []) (
      if-Returns _ _ _ (returns []) (
        fill-Returns p.block.bytes _ _ room _ _ inside now λ filled size.
          h264_loop-Returns cb room (parse_packet packet (some p.block.bytes) p.len).1 false _
            filled ps r.untailed h.1 (omega (arith, size, later))))

pub h265_loop-Returns :
    (cb : MediaCallBack) (room : ℕ) (packet : RtpPacket) (first : Bool) (ts : ℕ) (buf : List ℕ)
    (ps : List RtpPackInfo)
    → packet.tail_len ≡ 0
    → All Plain ps
    → length buf + loads ps ≤ room
    → Returns (h265_loop cb room packet first ts buf ps)
unfolding h265_loop
h265_loop-Returns cb room packet first ts buf [] t h fits = returns _
h265_loop-Returns cb room packet first ts buf (p ∷ ps) t h fits =
    let r = IsPlain-IsPlainly packet p.block.bytes p.len h.0 t in
    let at = (parse_packet packet (some p.block.bytes) p.len).1.head_len in
    let header = h265_header (byte_at p.block.bytes at) (byte_at p.block.bytes (at + 2)) in
    let grown = front-length first buf (header ∷ byte_at p.block.bytes (at + 1) ∷ []) in
    let (inside, now, later) =
      within _ _ _ 3 _ _ (length buf) _ (loads ps) room r.at r.size h.0.loaded h.0.inside h.0.small
        (omega arith) (omega (arith, grown)) fits in
    if-Returns _ _ _ (returns []) (
      if-Returns _ _ _ (returns []) (
        fill-Returns p.block.bytes _ _ room _ _ inside now λ filled size.
          h265_loop-Returns cb room (parse_packet packet (some p.block.bytes) p.len).1 false _
            filled ps r.untailed h.1 (omega (arith, size, later))))

pub other_loop-Returns :
    (cb : MediaCallBack) (room : ℕ) (type : MediaType) (packet : RtpPacket) (ts : ℕ) (buf : List ℕ)
    (ps : List RtpPackInfo)
    → packet.tail_len ≡ 0
    → All Plain ps
    → length buf + loads ps ≤ room
    → Returns (other_loop cb room type packet ts buf ps)
unfolding other_loop
other_loop-Returns cb room type packet ts buf [] t h fits = returns _
other_loop-Returns cb room type packet ts buf (p ∷ ps) t h fits =
    let r = IsPlain-IsPlainly packet p.block.bytes p.len h.0 t in
    if-Returns _ _ _ (returns []) (
      fill-Returns p.block.bytes _ _ room buf _
        (omega (arith, r.at, h.0.loaded, h.0.inside, h.0.small))
        (omega (arith, r.at, h.0.loaded, h.0.inside, h.0.small, fits))
        λ filled size.
          other_loop-Returns cb room type (parse_packet packet (some p.block.bytes) p.len).1 _
            filled ps r.untailed h.1
            (omega (arith, size, r.at, h.0.loaded, h.0.inside, h.0.small, fits)))

pub single_packet-Returns :
    (cb : MediaCallBack) (room : ℕ) (type : MediaType) (buf : List ℕ) (p : RtpPackInfo)
    → Plain p
    → length buf + loads (p ∷ []) ≤ room
    → Returns (single_packet cb room type buf p)
unfolding single_packet
single_packet-Returns cb room type buf p h fits =
    let r = IsPlain-IsPlainly new_rtp_packet p.block.bytes p.len h refl in
    if-Returns _ _ _ (returns []) (
      if-Returns _ _ _ (returns []) (
        fill-Returns p.block.bytes _ _ room buf _
          (omega (arith, r.at, r.size, h.loaded, h.inside, h.small)) (omega (arith, r.size, fits))
          λ filled size. returns _))
