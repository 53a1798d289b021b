-- ===== src/Organizer/Frames/Map.antt =====
-- Laws of the frame map of rtsp/mk_rtsp_rtp_frame_organizer.h: its keys rise, an update under a key
-- changes that frame alone, and each buffer is counted once.
use mathlib.Core.Path.{subst, subst₂}
use lib_media_service.Common.{
  inl, inr, sym, Bool-cases, ==_iff, ℕ, suc, ◌+◌, ◌≤◌, ◌<◌, ◌≡◌, refl, none, some, List, [], ◌∷◌,
  ◌++◌, arith, count, count-append, length, ltb, ◌==◌,
}
use lib_media_service.Organizer.Frames.{
  RtpPackInfo, RtpFrameInfo, FrameMap, find_frame, insert_entry, store_frame, erase_frame,
  smallest_from,
}

module _ (Ok : ℕ → RtpFrameInfo → Type 0) where
  -- The keys rise from `n` on, and each frame is as it should be for its key.
  abbrev pub KeysFrom : ℕ → FrameMap → Type 0
  KeysFrom n [] = Unit {0}
  KeysFrom n ((k, f) ∷ m) = (n ≤ k) × Ok k f × KeysFrom (suc k) m

  pub KeysFrom-mono : (i n : ℕ) (m : FrameMap) → i ≤ n → KeysFrom n m → KeysFrom i m
  KeysFrom-mono i n [] h v = tt
  KeysFrom-mono i n ((k, f) ∷ m) h v = (omega arith, v.1, v.2)

  pub find_frame-Ok :
      (n k : ℕ) (m : FrameMap) (f : RtpFrameInfo) → KeysFrom n m → find_frame k m ≡ some f → Ok k f
  unfolding find_frame
  find_frame-Ok n k [] f v e = cc
  find_frame-Ok n k ((j, g) ∷ m) f v e = elim (Bool-cases (j == k)) [
    | inl hit ↦ subst₂ Ok ((==_iff j k).0 hit) (ground arith) v.1
    | inr miss ↦ find_frame-Ok (suc j) k m f v.2 (ground arith)
  ]

  pub store_frame-KeysFrom :
      (n k : ℕ) (m : FrameMap) (f : RtpFrameInfo)
      → KeysFrom n m
      → Ok k f
      → KeysFrom n (store_frame k f m)
  unfolding store_frame
  store_frame-KeysFrom n k [] f v h = tt
  store_frame-KeysFrom n k ((j, g) ∷ m) f v h = elim (Bool-cases (j == k)) [
    | inl hit ↦ rw hit (v.0, subst (λ i. Ok i f) (sym ((==_iff j k).0 hit)) h, v.2)
    | inr miss ↦ rw miss (v.0, v.1, store_frame-KeysFrom (suc j) k m f v.2 h)
  ]

  pub insert_entry-KeysFrom :
      (n k : ℕ) (m : FrameMap) (f : RtpFrameInfo)
      → KeysFrom n m
      → Ok k f
      → n ≤ k
      → KeysFrom n (insert_entry k f m)
  unfolding insert_entry
  insert_entry-KeysFrom n k [] f v h l = (l, h, tt)
  insert_entry-KeysFrom n k ((j, g) ∷ m) f v h l = elim (Bool-cases (ltb k j)) [
    | inl lt ↦ rw lt (l, h, (ground arith, v.1, v.2))
    | inr ge ↦ elim (Bool-cases (k == j)) [
      | inl same ↦ rw (ge, same) v
      | inr other ↦
          rw (ge, other) (v.0, v.1, insert_entry-KeysFrom (suc j) k m f v.2 h (ground arith))
    ]
  ]

  pub erase_frame-KeysFrom : (n k : ℕ) (m : FrameMap) → KeysFrom n m → KeysFrom n (erase_frame k m)
  unfolding erase_frame
  erase_frame-KeysFrom n k [] v = tt
  erase_frame-KeysFrom n k ((j, g) ∷ m) v = elim (Bool-cases (j == k)) [
    | inl hit ↦ rw hit (KeysFrom-mono n (suc j) m (omega (arith, v.0)) v.2)
    | inr miss ↦ rw miss (v.0, v.1, erase_frame-KeysFrom (suc j) k m v.2)
  ]

  -- GetSmallFrame finds the first frame of a map whose frames carry their keys.
  pub smallest_from-first :
      ((k : ℕ) (f : RtpFrameInfo) → Ok k f → f.timestamp ≡ k)
      → (f : RtpFrameInfo) (n : ℕ) (m : FrameMap) → f.timestamp < n
      → KeysFrom n m
      → smallest_from f m ≡ f
  unfolding smallest_from
  smallest_from-first keyed f n [] h v = refl
  smallest_from-first keyed f n ((k, g) ∷ m) h v =
      ground (arith, keyed k g v.1, smallest_from-first keyed f (suc k) m)

-- What the map holds, by address.
abbrev pub addresses : List RtpPackInfo → List ℕ
addresses [] = []
addresses (p ∷ ps) = p.block.address ∷ addresses ps

abbrev pub held : FrameMap → List ℕ
held [] = []
held ((k, f) ∷ m) = addresses f.packet_queue ++ held m

pub length-store_frame :
    (k : ℕ) (f : RtpFrameInfo) (m : FrameMap) → length (store_frame k f m) ≡ length m
unfolding store_frame
length-store_frame k f [] = refl
length-store_frame k f ((j, g) ∷ m) = ground (arith, length-store_frame k f m)

pub length-insert_entry :
    (k : ℕ) (f : RtpFrameInfo) (m : FrameMap)
    → find_frame k m ≡ none
    → length (insert_entry k f m) ≡ length m + 1
unfolding find_frame insert_entry
length-insert_entry k f [] e = omega arith
length-insert_entry k f ((j, g) ∷ m) e = ground (arith, length-insert_entry k f m)

pub length-erase_frame :
    (k : ℕ) (f : RtpFrameInfo) (m : FrameMap)
    → find_frame k m ≡ some f
    → length (erase_frame k m) + 1 ≡ length m
unfolding find_frame erase_frame
length-erase_frame k f [] e = cc
length-erase_frame k f ((j, g) ∷ m) e = ground (arith, length-erase_frame k f m)

-- A frame that was just entered is replaced where it stands.
pub store_frame-insert_entry :
    (k : ℕ) (f g : RtpFrameInfo) (m : FrameMap)
    → find_frame k m ≡ none
    → store_frame k g (insert_entry k f m) ≡ insert_entry k g m
unfolding find_frame insert_entry store_frame
store_frame-insert_entry k f g [] e = ground arith
store_frame-insert_entry k f g ((j, h) ∷ m) e = ground (arith, store_frame-insert_entry k f g m)

module _ (a : ℕ) where
  pub count-held-cons :
      (k : ℕ) (f : RtpFrameInfo) (m : FrameMap)
      → count a (held ((k, f) ∷ m)) ≡ count a (addresses f.packet_queue) + count a (held m)
  count-held-cons k f m = count-append a (addresses f.packet_queue) (held m)

  pub count-held-store_frame :
      (k : ℕ) (f g : RtpFrameInfo) (m : FrameMap)
      → find_frame k m ≡ some f
      → count a (held (store_frame k g m)) + count a (addresses f.packet_queue)
        ≡ count a (held m) + count a (addresses g.packet_queue)
  unfolding find_frame store_frame
  count-held-store_frame k f g [] e = cc
  count-held-store_frame k f g ((j, h) ∷ m) e = ground (
    arith,
    count-held-store_frame k f g m,
    count-held-cons j h m,
    count-held-cons j g m,
    count-held-cons j h (store_frame k g m),
  )

  pub count-held-insert_entry :
      (k : ℕ) (f : RtpFrameInfo) (m : FrameMap)
      → find_frame k m ≡ none
      → count a (held (insert_entry k f m)) ≡ count a (addresses f.packet_queue) + count a (held m)
  unfolding find_frame insert_entry
  count-held-insert_entry k f [] e = count-held-cons k f []
  count-held-insert_entry k f ((j, g) ∷ m) e = ground (
    arith,
    count-held-insert_entry k f m,
    count-held-cons j g m,
    count-held-cons k f ((j, g) ∷ m),
    count-held-cons j g (insert_entry k f m),
  )

  pub count-held-erase_frame :
      (k : ℕ) (f : RtpFrameInfo) (m : FrameMap)
      → find_frame k m ≡ some f
      → count a (addresses f.packet_queue) + count a (held (erase_frame k m)) ≡ count a (held m)
  unfolding find_frame erase_frame
  count-held-erase_frame k f [] e = cc
  count-held-erase_frame k f ((j, g) ∷ m) e = ground (
    arith,
    count-held-erase_frame k f m,
    count-held-cons j g m,
    count-held-cons j g (erase_frame k m),
  )
