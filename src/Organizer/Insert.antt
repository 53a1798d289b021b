-- ===== src/Organizer/Insert.antt =====
-- insertRtpPacket of rtsp/mk_rtsp_rtp_frame_organizer.cpp as a whole.
use mathlib.Core.Path.{subst}
use lib_media_service.Common.{
  ℕ, ◌+◌, ◌<◌, ◌-◌, ◌≤◌, ltb, ◌≡◌, ◌%◌, ◌==◌, ◌≢◌, refl, sym, ap, false, none, some, List, [], ◌∷◌,
  All, arith, count, length, Bool-cases, Option-cases, inl, inr, Status, ok, fail, is_ok, add32,
  if◌then◌else◌,
}
use lib_media_service.RtpPacket.{
  RtpPacket, new_rtp_packet, parse_packet, get_time_stamp, get_seq_num, get_marker,
  get_payload_type,
}
use lib_media_service.RtspService.{RtspService}
use lib_media_service.Organizer.Frames.{
  Block, RtpPackInfo, RtpFrameInfo, FrameMap, find_frame, insert_entry, store_frame,
}
use lib_media_service.Organizer.Frames.Map.{
  KeysFrom, held, addresses, find_frame-Ok, store_frame-KeysFrom, insert_entry-KeysFrom,
  length-store_frame, length-insert_entry, store_frame-insert_entry, count-held-store_frame,
  count-held-insert_entry,
}
use lib_media_service.Organizer.Queue.{seq_at, lost_packets}
use lib_media_service.Organizer.Queue.Insertion.{
  SortedFrom, Insertion, here, there, Inserts, insert_queue-Inserts, Insertion-All,
}
use lib_media_service.Organizer.Queue.Runs.{any_marker, any_marker-Insertion, count-Insertion}
use lib_media_service.Organizer.Invariant.{IsFrame, IsSpare, IsValid, IsCounted, Keeps}
use lib_media_service.Organizer.Steps.{
  get_small_frame-first, release_rtp_packet-IsValid, release_rtp_packet-balance, check_frame-Keeps,
  check_frame-code,
}
use lib_media_service.Organizer.{
  Organizer, Result, insert_frame, get_small_frame, release_rtp_packet, check_frame, give_up_frame,
  add_to_frame, insert_parsed, insert_rtp_packet, update_total_rtp_packet_num,
}

-- A frame that the next packet of timestamp `ts` may join: one of the map, or one that InsertFrame
-- has just entered and that has no packet yet. `before` is what the frames held.
record IsSlot (o : Organizer) (before : FrameMap) (ts : ℕ) (f : RtpFrameInfo) : Type 0 where
  keyed : f.timestamp ≡ ts
  sorted : SortedFrom 0 f.packet_queue
  same_time : All (λ p. p.timestamp ≡ ts) f.packet_queue
  marked : f.marker ≡ any_marker f.packet_queue
  stored : (g : RtpFrameInfo) → IsFrame ts g → KeysFrom IsFrame 0 (store_frame ts g o.rtp_frame_map)
  counted :
      (g : RtpFrameInfo) (a : ℕ)
      → count a (held (store_frame ts g o.rtp_frame_map)) + count a (addresses f.packet_queue)
        ≡ count a (held before) + count a (addresses g.packet_queue)
  spares : All IsSpare o.rtp_frame_free_list
  total : length o.rtp_frame_map + length o.rtp_frame_free_list ≡ o.max_cache_frame_num
  room : 0 < o.max_cache_frame_num

found-IsSlot :
    (o : Organizer) (ts : ℕ) (f : RtpFrameInfo)
    → IsValid o
    → find_frame ts o.rtp_frame_map ≡ some f
    → IsSlot o o.rtp_frame_map ts f
found-IsSlot o ts f v e =
    let is = find_frame-Ok IsFrame 0 ts o.rtp_frame_map f v.frames e in
    record {
      keyed = is.keyed;
      sorted = is.sorted;
      same_time = is.same_time;
      marked = is.marked;
      stored = λ g h. store_frame-KeysFrom IsFrame 0 ts o.rtp_frame_map g v.frames h;
      counted = λ g a. count-held-store_frame a ts f g o.rtp_frame_map e;
      spares = v.spares;
      total = v.total;
      room = v.room;
    }

-- InsertFrame, given a free frame and a timestamp that the map does not have.
fresh-IsSlot :
    (o : Organizer) (pt ts : ℕ) (f : RtpFrameInfo) (rest : List RtpFrameInfo)
    → IsValid o
    → find_frame ts o.rtp_frame_map ≡ none
    → o.rtp_frame_free_list ≡ f ∷ rest
    → (g : RtpFrameInfo) × (o' : Organizer) × (insert_frame o pt ts ≡ some (g, o'))
      × IsSlot o' o.rtp_frame_map ts g
unfolding insert_frame
fresh-IsSlot o pt ts f rest v e l = (
  g,
  o',
  rw (l, insert_frame),
  record {
    keyed = refl;
    sorted = subst (SortedFrom 0) (sym spares.0) tt;
    same_time = subst (All (λ p. p.timestamp ≡ ts)) (sym spares.0) tt;
    marked = ap any_marker (sym spares.0);
    stored = λ h is.
        rw (store_frame-insert_entry ts g h o.rtp_frame_map e)
          (insert_entry-KeysFrom IsFrame 0 ts o.rtp_frame_map h v.frames is (omega arith));
    counted = λ h a. omega (
      arith,
      ap (λ m. count a (held m)) (store_frame-insert_entry ts g h o.rtp_frame_map e),
      count-held-insert_entry a ts h o.rtp_frame_map e,
      ap (λ q. count a (addresses q)) spares.0,
    );
    spares = spares.1;
    total = omega (
      arith,
      v.total,
      length-insert_entry ts g o.rtp_frame_map e,
      ap (length {A = RtpFrameInfo}) l,
    );
    room = v.room;
  },
)
  where
    g : RtpFrameInfo
    g = record f { marker = false; payload_type = pt; timestamp = ts }

    o' : Organizer
    o' = record o { rtp_frame_free_list = rest; rtp_frame_map = insert_entry ts g o.rtp_frame_map }

    spares : All IsSpare (f ∷ rest)
    spares = subst (All IsSpare) l v.spares

Insertion-ne-nil {ℓ} : {A : Type ℓ} {x : A} {xs ys : List A} → Insertion x xs ys → ys ≢ []
Insertion-ne-nil here e = cc
Insertion-ne-nil (there i) e = cc

-- The packet joins the frame, and checkFrame follows.
add_to_frame-Keeps :
    (o : Organizer) (s : RtspService) (before : FrameMap) (ts : ℕ) (f : RtpFrameInfo)
    (info : RtpPackInfo)
    → IsSlot o before ts f
    → info.timestamp ≡ ts
    → (r : Result) × (add_to_frame o s f info ≡ some r)
      × (r.code ≡ ok)
      × Keeps (record o { rtp_frame_map = before }) s (info.block.address ∷ []) r
unfolding add_to_frame
add_to_frame-Keeps o s before ts f info slot t =
    let (queue, d, ins) = insert_queue-Inserts f.packet_queue info slot.sorted in
    let f2 : RtpFrameInfo = record f {
      marker = if f.marker then f.marker else info.marker;
      packet_queue = queue;
    } in
    let is : IsFrame ts f2 = joined queue d ins in
    let o2 : Organizer = record o {
      rtp_frame_map = store_frame ts f2 o.rtp_frame_map;
      disorder_seq_counts = add32 o.disorder_seq_counts d;
    } in
    let valid : IsValid o2 = record {
      frames = slot.stored f2 is;
      spares = slot.spares;
      total = omega (arith, slot.total, length-store_frame ts f2 o.rtp_frame_map);
      room = slot.room;
    } in
    let keeps = check_frame-Keeps o2 s valid in
    (
      check_frame o2 s,
      rw (ins.result, add_to_frame, slot.keyed),
      check_frame-code o2 s,
      record {
        valid = keeps.valid;
        complete = keeps.complete;
        balance =
            λ a. omega (arith, keeps.balance a, slot.counted f2 a, count-Insertion a ins.placed);
      },
    )
  where
    joined :
        (queue : List RtpPackInfo) (d : ℕ)
        → Inserts f.packet_queue info queue d
        → IsFrame ts
            (record f { marker = if f.marker then f.marker else info.marker; packet_queue = queue })
    joined queue d ins = record {
      keyed = slot.keyed;
      sorted = ins.sorted;
      filled = Insertion-ne-nil ins.placed;
      same_time = Insertion-All (λ p. p.timestamp ≡ ts) ins.placed t slot.same_time;
      marked = ground (arith, any_marker-Insertion ins.placed, slot.marked);
    }

-- What a call of insertRtpPacket adds to the buffers of the organizer and the pool: the packet's, when
-- it returns OK. When it does not, the packet's buffer is still the caller's.
abbrev pub taken : Block → Status → List ℕ
taken block code = if is_ok code then block.address ∷ [] else []

-- The count of a queue that is not too long is not 0.
lost_packets-some :
    (p : RtpPackInfo) (ps : List RtpPackInfo)
    → length (p ∷ ps) < 65536
    → (n : ℕ) × (lost_packets (p ∷ ps) ≡ some n)
unfolding lost_packets
lost_packets-some p ps h =
    let counted : (length (p ∷ ps) % 65536 == 0) ≡ false = ground (arith, h) in
    let count = length (p ∷ ps) % 65536 in
    let seq_len = (seq_at (p ∷ ps) (count - 1) + 65536 - p.seq + 1) % 65536 in
    (if ltb count seq_len then seq_len - count else 0, rw counted refl)

-- No frame is free and none has the timestamp: the oldest frame is given up, and its buffers go back.
give_up_frame-Keeps :
    (o : Organizer) (s : RtspService) (m : FrameMap)
    → IsValid o
    → IsCounted o
    → o.rtp_frame_map ≡ m
    → o.rtp_frame_free_list ≡ []
    → (r : Result) × (give_up_frame o s ≡ some r) × (r.code ≡ fail) × Keeps o s [] r
unfolding give_up_frame
give_up_frame-Keeps o s [] v c e l = absurd (
    omega (
      arith,
      v.room,
      v.total,
      ap (length {A = ℕ × RtpFrameInfo}) e,
      ap (length {A = RtpFrameInfo}) l,
    ))
give_up_frame-Keeps o s ((k, f) ∷ m) v c e l =
    let (small, found, is) = get_small_frame-first o k f m e v in
    queued small (subst (λ j. find_frame j o.rtp_frame_map ≡ some f) (sym is.keyed) found) is.filled
      f.packet_queue refl
  where
    queued :
        get_small_frame o ≡ some f
        → find_frame f.timestamp o.rtp_frame_map ≡ some f
        → f.packet_queue ≢ []
        → (q : List RtpPackInfo) → f.packet_queue ≡ q
        → (r : Result) × (give_up_frame o s ≡ some r) × (r.code ≡ fail) × Keeps o s [] r
    queued small found filled [] eq = absurd (filled eq)
    queued small found filled (p ∷ ps) eq =
        let few : length (p ∷ ps) < 65536 = subst (λ q. length q < 65536) eq (c f small) in
        let (lost, counted) = lost_packets-some p ps few in
        let o1 : Organizer = record o {
          lost_rtp_packet_num = add32 o.lost_rtp_packet_num lost;
          lost_frame_num = add32 o.lost_frame_num 1;
        } in
        let v1 : IsValid o1 = record {
          frames = v.frames;
          spares = v.spares;
          total = v.total;
          room = v.room;
        } in
        (
          record {
            code = fail;
            organizer = (release_rtp_packet o1 s f).0;
            service = (release_rtp_packet o1 s f).1;
            delivered = [];
          },
          simp (small, give_up_frame, eq, counted),
          refl,
          record {
            valid = release_rtp_packet-IsValid o1 s f v1 found;
            complete = tt;
            balance = λ a. omega (arith, release_rtp_packet-balance o1 s f a found);
          },
        )

insert_frame-none :
    (o : Organizer) (pt ts : ℕ) → o.rtp_frame_free_list ≡ [] → insert_frame o pt ts ≡ none
unfolding insert_frame
insert_frame-none o pt ts l = rw (l, insert_frame)

accepted-Keeps :
    (o p : Organizer) (s : RtspService) (block : Block) (r : Result)
    → p.rtp_frame_map ≡ o.rtp_frame_map
    → r.code ≡ ok
    → Keeps p s (block.address ∷ []) r
    → Keeps o s (taken block r.code) r
accepted-Keeps o p s block r same code keeps = record {
  valid = keeps.valid;
  complete = keeps.complete;
  balance = λ a. omega (
    arith,
    keeps.balance a,
    ap (λ m. count a (held m)) same,
    ap (λ c. count a (taken block c)) code,
  );
}

refused-Keeps :
    (o p : Organizer) (s : RtspService) (block : Block) (r : Result)
    → p.rtp_frame_map ≡ o.rtp_frame_map
    → r.code ≡ fail
    → Keeps p s [] r
    → Keeps o s (taken block r.code) r
refused-Keeps o p s block r same code keeps = record {
  valid = keeps.valid;
  complete = keeps.complete;
  balance = λ a. omega (
    arith,
    keeps.balance a,
    ap (λ m. count a (held m)) same,
    ap (λ c. count a (taken block c)) code,
  );
}

insert_parsed-Keeps :
    (o : Organizer) (s : RtspService) (block : Block) (len : ℕ) (packet : RtpPacket)
    → IsValid o
    → IsCounted o
    → (r : Result) × (insert_parsed o s block len packet ≡ some r)
      × Keeps o s (taken block r.code) r
unfolding insert_parsed update_total_rtp_packet_num get_small_frame
insert_parsed-Keeps o s block len packet v c = elim (Option-cases (find_frame ts o.rtp_frame_map)) [
  | inr (f, e) ↦
      let (r, eq, code, keeps) =
        add_to_frame-Keeps o1 s o.rtp_frame_map ts f info (found-IsSlot o1 ts f v1 e) refl in
      (r, rw (e, insert_parsed) eq, accepted-Keeps o o1 s block r refl code keeps)
  | inl e ↦ unseen e o.rtp_frame_free_list refl
]
  where
    ts : ℕ
    ts = get_time_stamp packet

    info : RtpPackInfo
    info = record {
      seq = get_seq_num packet;
      timestamp = ts;
      marker = get_marker packet;
      block = block;
      len = len;
    }

    o1 : Organizer
    o1 = record o { total_rtp_packet_num = add32 o.total_rtp_packet_num 1 }

    v1 : IsValid o1
    v1 = record { frames = v.frames; spares = v.spares; total = v.total; room = v.room }

    unseen :
        find_frame ts o.rtp_frame_map ≡ none
        → (free : List RtpFrameInfo) → o.rtp_frame_free_list ≡ free
        → (r : Result) × (insert_parsed o s block len packet ≡ some r)
          × Keeps o s (taken block r.code) r
    unseen e [] l =
        let (r, eq, code, keeps) = give_up_frame-Keeps o1 s o.rtp_frame_map v1 c refl l in
        (
          r,
          rw (e, insert_parsed, insert_frame-none o1 (get_payload_type packet) ts l) eq,
          refused-Keeps o o1 s block r refl code keeps,
        )
    unseen e (f ∷ rest) l =
        let (g, o2, entered, slot) = fresh-IsSlot o1 (get_payload_type packet) ts f rest v1 e l in
        let (r, eq, code, keeps) = add_to_frame-Keeps o2 s o.rtp_frame_map ts g info slot refl in
        (
          r,
          rw (e, insert_parsed, entered) eq,
          accepted-Keeps o (record o2 { rtp_frame_map = o.rtp_frame_map }) s block r refl code
              keeps,
        )

-- insertRtpPacket, of any length.
pub insert_rtp_packet-kept :
    (o : Organizer) (s : RtspService) (block : Block) (len : ℕ)
    → IsValid o
    → IsCounted o
    → (r : Result) × (insert_rtp_packet o s (some block) len ≡ some r)
      × Keeps o s (taken block r.code) r
unfolding insert_rtp_packet
insert_rtp_packet-kept o s block len v c =
    elim (Bool-cases (is_ok (parse_packet new_rtp_packet (some block.bytes) len).0)) [
      | inl good ↦
          let (r, eq, keeps) =
            insert_parsed-Keeps o s block len (parse_packet new_rtp_packet (some block.bytes) len).1
              v c in
          (r, rw good eq, keeps)
      | inr bad ↦ (
        record { code = fail; organizer = o; service = s; delivered = [] },
        rw bad,
        record { valid = v; complete = tt; balance = λ a. omega arith },
      )
    ]

-- On a valid organizer whose oldest frame has fewer than 65536 packets, with a packet that lies
-- inside its buffer, insertRtpPacket is defined, leaves a valid organizer, hands over complete
-- frames only, of at most 65536 packets, and every buffer is in the frames or in the pool as often
-- as before, with the packet's buffer added exactly if the call returns OK.
pub insert_rtp_packet-Keeps :
    (o : Organizer) (s : RtspService) (block : Block) (len : ℕ)
    → IsValid o
    → IsCounted o
    → len ≤ length block.bytes
    → (r : Result) × (insert_rtp_packet o s (some block) len ≡ some r)
      × Keeps o s (taken block r.code) r
insert_rtp_packet-Keeps o s block len v c inside = insert_rtp_packet-kept o s block len v c
