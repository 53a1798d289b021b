-- ===== src/Organizer/Packets/Handed.antt =====
-- The operations of rtsp/mk_rtsp_rtp_frame_organizer.cpp on packets that all have a property: the
-- packets kept and those handed over have it too.
use mathlib.Core.Path.{subst}
use lib_media_service.Common.{
  is_ok, sym, ℕ, ◌≡◌, refl, true, false, Bool, Option, none, some, List, [], ◌∷◌, All, arith,
  Bool-cases, Option-cases, inl, inr, not, if◌then◌else◌, add32, ok,
}
use lib_media_service.RtpPacket.{
  RtpPacket, get_time_stamp, get_seq_num, get_marker, get_payload_type, parse_packet,
  new_rtp_packet,
}
use lib_media_service.RtspService.{RtspService}
use lib_media_service.Organizer.Frames.{
  Block, RtpPackInfo, RtpFrameInfo, FrameMap, find_frame, insert_entry, store_frame, smallest_from,
}
use lib_media_service.Organizer.Queue.{insert_queue, consecutive, lost_packets}
use lib_media_service.Organizer.Invariant.{IsSpare, IsValid}
use lib_media_service.Organizer.{
  Organizer, Result, insert_frame, get_small_frame, release_rtp_packet, handle_finished_frame,
  check_small_frame, check_frame, give_up_frame, add_to_frame, insert_parsed, insert_rtp_packet,
  update_total_rtp_packet_num,
}
use lib_media_service.Organizer.Packets.{
  Stored, find_frame-Stored, insert_entry-Stored, store_frame-Stored, erase_frame-Stored,
  smallest_from-All, InsertsIf, inserted, insert_queue-InsertsIf,
}

module _ (P : RtpPackInfo → Type 0) where
  -- What an operation keeps and what it hands over.
  pub record Hands (r : Result) : Type 0 where
    pub stored : Stored P r.organizer.rtp_frame_map
    pub handed : All (λ d. All P d.packets) r.delivered

  pub data HandsIf : Option Result → Type 0 where
    faulty : HandsIf none
    hands : {r : Result} → Hands r → HandsIf (some r)

  release_rtp_packet-Stored :
      (o : Organizer) (s : RtspService) (f : RtpFrameInfo)
      → Stored P o.rtp_frame_map
      → Stored P (release_rtp_packet o s f).0.rtp_frame_map
  unfolding release_rtp_packet
  release_rtp_packet-Stored o s f h = elim (Option-cases (find_frame f.timestamp o.rtp_frame_map)) [
    | inl e ↦ rw (e, release_rtp_packet) h
    | inr (g, e) ↦ rw (e, release_rtp_packet) (erase_frame-Stored P f.timestamp o.rtp_frame_map h)
  ]

  handle_finished_frame-All :
      (o : Organizer) (f : RtpFrameInfo) (q : List RtpPackInfo)
      → f.packet_queue ≡ q
      → All P q
      → All (λ d. All P d.packets) (handle_finished_frame o f)
  unfolding handle_finished_frame
  handle_finished_frame-All o f [] e h = rw (e, handle_finished_frame) tt
  handle_finished_frame-All o f (p ∷ ps) e h = elim (Bool-cases o.rtp_frame_handler) [
    | inl set ↦ rw (e, handle_finished_frame, set) (h, tt)
    | inr null ↦ rw (e, handle_finished_frame, null) tt
  ]

  check_small_frame-Hands :
      (o : Organizer) (s : RtspService) (f : RtpFrameInfo) (q : List RtpPackInfo)
      → Stored P o.rtp_frame_map
      → All P f.packet_queue
      → Hands (check_small_frame o s f q)
  unfolding check_small_frame
  check_small_frame-Hands o s f [] h p = record { stored = h; handed = tt }
  check_small_frame-Hands o s f (x ∷ xs) h p = go (not f.marker) (not (consecutive x.seq (x ∷ xs)))
    where
      unchanged : Result
      unchanged = record { code = ok; organizer = o; service = s; delivered = [] }

      done : Result
      done = record {
        code = ok;
        organizer = (release_rtp_packet o s f).0;
        service = (release_rtp_packet o s f).1;
        delivered = handle_finished_frame o f;
      }

      go : (b c : Bool) → Hands (if b then unchanged else if c then unchanged else done)
      go true c = record { stored = h; handed = tt }
      go false true = record { stored = h; handed = tt }
      go false false = record {
        stored = release_rtp_packet-Stored o s f h;
        handed = handle_finished_frame-All o f f.packet_queue refl p;
      }

  get_small_frame-All :
      (o : Organizer) (f : RtpFrameInfo)
      → Stored P o.rtp_frame_map
      → get_small_frame o ≡ some f
      → All P f.packet_queue
  unfolding get_small_frame
  get_small_frame-All o f h e = go o.rtp_frame_map h e
    where
      go :
          (m : FrameMap)
          → Stored P m
          → get_small_frame (record o { rtp_frame_map = m }) ≡ some f
          → All P f.packet_queue
      go [] h e = cc
      go ((k, g) ∷ m) h e =
          let same : smallest_from g m ≡ f = ground arith in
          subst (λ (x : RtpFrameInfo). All P x.packet_queue) same (smallest_from-All P g m h.0 h.1)

  check_frame-Hands :
      (o : Organizer) (s : RtspService) → Stored P o.rtp_frame_map → Hands (check_frame o s)
  unfolding check_frame
  check_frame-Hands o s h = elim (Option-cases (get_small_frame o)) [
    | inl e ↦ rw (check_frame, e) (record { stored = h; handed = tt })
    | inr (f, e) ↦
        rw (check_frame, e)
          (check_small_frame-Hands o s f f.packet_queue h (get_small_frame-All o f h e))
  ]

  add_to_frame-HandsIf :
      (o : Organizer) (s : RtspService) (f : RtpFrameInfo) (info : RtpPackInfo)
      → Stored P o.rtp_frame_map
      → All P f.packet_queue
      → P info
      → HandsIf (add_to_frame o s f info)
  unfolding add_to_frame
  add_to_frame-HandsIf o s f info h q p =
      go (insert_queue f.packet_queue info) (insert_queue-InsertsIf P f.packet_queue info p q)
    where
      f1 : RtpFrameInfo
      f1 = record f { marker = if f.marker then f.marker else info.marker }

      checked : List RtpPackInfo → ℕ → Result
      checked queue disorder =
          check_frame
            (record o {
              rtp_frame_map =
                  store_frame f1.timestamp (record f1 { packet_queue = queue }) o.rtp_frame_map;
              disorder_seq_counts = add32 o.disorder_seq_counts disorder;
            })
            s

      go :
          (r : Option (List RtpPackInfo × ℕ))
          → InsertsIf P r
          → HandsIf (elim r [ none ↦ none | some (queue, d) ↦ some (checked queue d) ])
      go none k = faulty
      go (some (queue, d)) (inserted k) = hands (
          check_frame-Hands _ s (
            store_frame-Stored P f1.timestamp (record f1 { packet_queue = queue }) o.rtp_frame_map k
              h))

  give_up_frame-HandsIf :
      (o : Organizer) (s : RtspService) → Stored P o.rtp_frame_map → HandsIf (give_up_frame o s)
  unfolding give_up_frame
  give_up_frame-HandsIf o s h = elim (Option-cases (get_small_frame o)) [
    | inl e ↦ rw (e, give_up_frame) faulty
    | inr (f, e) ↦ queued f e f.packet_queue refl
  ]
    where
      queued :
          (f : RtpFrameInfo)
          → get_small_frame o ≡ some f
          → (q : List RtpPackInfo) → f.packet_queue ≡ q
          → HandsIf (give_up_frame o s)
      queued f e [] eq = simp (e, give_up_frame, eq) faulty
      queued f e (x ∷ xs) eq = elim (Option-cases (lost_packets (x ∷ xs))) [
        | inl lost ↦ simp (e, give_up_frame, eq, lost) faulty
        | inr (n, lost) ↦
            let o1 : Organizer = record o {
              lost_rtp_packet_num = add32 o.lost_rtp_packet_num n;
              lost_frame_num = add32 o.lost_frame_num 1;
            } in
            simp (e, give_up_frame, eq, lost)
              (hands (record { stored = release_rtp_packet-Stored o1 s f h; handed = tt }))
      ]

  insert_parsed-HandsIf :
      (o : Organizer) (s : RtspService) (block : Block) (len : ℕ) (packet : RtpPacket)
      → All IsSpare o.rtp_frame_free_list
      → Stored P o.rtp_frame_map
      → ((info : RtpPackInfo) → info.block ≡ block → info.len ≡ len → P info)
      → HandsIf (insert_parsed o s block len packet)
  unfolding insert_parsed update_total_rtp_packet_num insert_frame
  insert_parsed-HandsIf o s block len packet spares h p =
      elim (Option-cases (find_frame ts o.rtp_frame_map)) [
        | inr (f, e) ↦
            rw (e, insert_parsed)
              (add_to_frame-HandsIf o1 s f info h (find_frame-Stored P ts o.rtp_frame_map f h e)
                (p info refl refl))
        | inl e ↦ unseen e o.rtp_frame_free_list refl
      ]
    where
      ts : ℕ
      ts = get_time_stamp packet

      info : RtpPackInfo
      info = record {
        seq = get_seq_num packet;
        timestamp = ts;
        marker = get_marker packet;
        block = block;
        len = len;
      }

      o1 : Organizer
      o1 = record o { total_rtp_packet_num = add32 o.total_rtp_packet_num 1 }

      unseen :
          find_frame ts o.rtp_frame_map ≡ none
          → (free : List RtpFrameInfo) → o.rtp_frame_free_list ≡ free
          → HandsIf (insert_parsed o s block len packet)
      unseen e [] l =
          let full : insert_frame o1 (get_payload_type packet) ts ≡ none = rw (l, insert_frame) in
          rw (e, insert_parsed, full) (give_up_frame-HandsIf o1 s h)
      unseen e (f ∷ rest) l =
          let spare : All IsSpare (f ∷ rest) = subst (All IsSpare) l spares in
          let g : RtpFrameInfo = record f {
            marker = false;
            payload_type = get_payload_type packet;
            timestamp = ts;
          } in
          let o2 : Organizer = record o1 {
            rtp_frame_free_list = rest;
            rtp_frame_map = insert_entry ts g o.rtp_frame_map;
          } in
          let entered : insert_frame o1 (get_payload_type packet) ts ≡ some (g, o2) =
            rw (l, insert_frame) in
          let empty : All P f.packet_queue = subst (All P) (sym spare.0) tt in
          rw (e, insert_parsed, entered)
            (add_to_frame-HandsIf o2 s g info (insert_entry-Stored P ts g o.rtp_frame_map empty h)
              empty (p info refl refl))

  -- insertRtpPacket of a packet with the property, unless ParsePacket refuses it: all packets that the
  -- organizer has afterwards, and all that it hands over, have it.
  insert_rtp_packet-HandsIf :
      (o : Organizer) (s : RtspService) (block : Block) (len : ℕ)
      → IsValid o
      → Stored P o.rtp_frame_map
      → (is_ok (parse_packet new_rtp_packet (some block.bytes) len).0 ≡ true
          → (info : RtpPackInfo) → info.block ≡ block
          → info.len ≡ len
          → P info)
      → HandsIf (insert_rtp_packet o s (some block) len)
  unfolding insert_rtp_packet
  insert_rtp_packet-HandsIf o s block len v h p =
      elim (Bool-cases (is_ok (parse_packet new_rtp_packet (some block.bytes) len).0)) [
        | inl good ↦ rw good (insert_parsed-HandsIf o s block len _ v.spares h (p good))
        | inr bad ↦ rw bad (hands (record { stored = h; handed = tt }))
      ]

  HandsIf-some : (x : Option Result) (r : Result) → HandsIf x → x ≡ some r → Hands r
  HandsIf-some none r h e = cc
  HandsIf-some (some q) r (hands h) e = subst Hands (ground arith) h

  pub insert_rtp_packet-Hands :
      (o : Organizer) (s : RtspService) (block : Block) (len : ℕ) (r : Result)
      → IsValid o
      → Stored P o.rtp_frame_map
      → (is_ok (parse_packet new_rtp_packet (some block.bytes) len).0 ≡ true
          → (info : RtpPackInfo) → info.block ≡ block
          → info.len ≡ len
          → P info)
      → insert_rtp_packet o s (some block) len ≡ some r
      → Hands r
  insert_rtp_packet-Hands o s block len r v h p e =
      HandsIf-some _ r (insert_rtp_packet-HandsIf o s block len v h p) e
