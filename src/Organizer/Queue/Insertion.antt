-- ===== src/Organizer/Queue/Insertion.antt =====
-- insert and insertRange of rtsp/mk_rtsp_rtp_frame_organizer.cpp keep a queue in order.
use mathlib.Core.List.Perm
use lib_media_service.Common.{
  ℕ, ◌≤◌, ◌<◌, ◌≡◌, ◌↔◌, refl, false, inl, inr, some, List, [], ◌∷◌, ◌++◌, arith, All, ltb, leb,
  Bool-cases, leb→le,
}
use mathlib.Core.List.{Perm}
use lib_media_service.Organizer.Frames.{RtpPackInfo, last_seq}
use lib_media_service.Organizer.Queue.{insert_range, insert_queue}

-- The sequence numbers never fall along the queue, and start at `n` or above.
abbrev pub SortedFrom : ℕ → List RtpPackInfo → Type 0
SortedFrom n [] = Unit {0}
SortedFrom n (p ∷ ps) = (n ≤ p.seq) × SortedFrom p.seq ps

-- `ys` is `xs` with `x` put in at one place.
pub data Insertion {ℓ} {A : Type ℓ} (x : A) : List A → List A → Type ℓ where
  here : {xs : List A} → Insertion x xs (x ∷ xs)
  there : {y : A} {xs ys : List A} → Insertion x xs ys → Insertion x (y ∷ xs) (y ∷ ys)

pub Insertion-perm {ℓ} :
    {A : Type ℓ} {x : A} {xs ys : List A} → Insertion x xs ys → Perm ys (x ∷ xs)
Insertion-perm here = Perm.rfl
Insertion-perm {x = x} (there {y = y} i) =
    Perm.trans (Perm.cons y (Insertion-perm i)) (Perm.swap x y _)

pub Insertion-All {ℓ κ} :
    {A : Type ℓ} (P : A → Type κ) {x : A} {xs ys : List A}
    → Insertion x xs ys
    → P x
    → All P xs
    → All P ys
Insertion-All P here p ps = (p, ps)
Insertion-All P (there i) p ps = (ps.0, Insertion-All P i p ps.1)

pub Insertion-snoc {ℓ} : {A : Type ℓ} (x : A) (xs : List A) → Insertion x xs (xs ++ (x ∷ []))
Insertion-snoc x [] = here
Insertion-snoc x (y ∷ xs) = there (Insertion-snoc x xs)

SortedFrom-last :
    (p : RtpPackInfo) (ps : List RtpPackInfo) → SortedFrom p.seq ps → p.seq ≤ last_seq p ps
SortedFrom-last p [] s = omega arith
SortedFrom-last p (q ∷ qs) s = omega (arith, SortedFrom-last q qs s.1)

SortedFrom-snoc :
    (n : ℕ) (p : RtpPackInfo) (ps : List RtpPackInfo) (x : RtpPackInfo)
    → SortedFrom n (p ∷ ps)
    → last_seq p ps ≤ x.seq
    → SortedFrom n ((p ∷ ps) ++ (x ∷ []))
SortedFrom-snoc n p [] x s h = (s.0, (h, tt))
SortedFrom-snoc n p (q ∷ qs) x s h = (s.0, SortedFrom-snoc p.seq q qs x s.1 h)

-- insertRange finds a place before the last packet, and the result is in order.
insert_range-sorts :
    (n : ℕ) (p : RtpPackInfo) (ps : List RtpPackInfo) (x : RtpPackInfo)
    → SortedFrom n (p ∷ ps)
    → n ≤ x.seq
    → x.seq < last_seq p ps
    → (r : List RtpPackInfo) × (insert_range x (p ∷ ps) ≡ some r)
      × Insertion x (p ∷ ps) r
      × SortedFrom n r
unfolding insert_range
insert_range-sorts n p [] x s hn h = (x ∷ p ∷ [], ground arith, here, (hn, (omega arith, tt)))
insert_range-sorts n p (q ∷ qs) x s hn h = elim (Bool-cases (leb x.seq p.seq)) [
  | inl le ↦ (x ∷ p ∷ q ∷ qs, rw le, here, (hn, (leb→le _ _ le, s.1)))
  | inr gt ↦
      let (r, e, i, so) = insert_range-sorts p.seq q qs x s.1 (ground arith) h in
      (p ∷ r, rw (gt, e), there i, (s.0, so))
]

SortedFrom-All :
    (n : ℕ) (p : RtpPackInfo) (ps : List RtpPackInfo) (k : ℕ)
    → SortedFrom n (p ∷ ps)
    → last_seq p ps ≤ k
    → All (λ q. q.seq ≤ k) (p ∷ ps)
SortedFrom-All n p [] k s h = (h, tt)
SortedFrom-All n p (q ∷ qs) k s h =
    let rest = SortedFrom-All p.seq q qs k s.1 h in (omega arith, rest)

All-last :
    (p : RtpPackInfo) (ps : List RtpPackInfo) (k : ℕ)
    → All (λ q. q.seq ≤ k) (p ∷ ps)
    → last_seq p ps ≤ k
All-last p [] k a = a.0
All-last p (q ∷ qs) k a = All-last q qs k a.1

-- What insert promises: a queue in order stays in order, with the packet put in and all others kept,
-- and the packet counts as out of order exactly when a packet with a higher number was there.
pub record Inserts (q : List RtpPackInfo) (x : RtpPackInfo) (r : List RtpPackInfo) (d : ℕ)
    : Type 0 where
  pub result : insert_queue q x ≡ some (r, d)
  pub placed : Insertion x q r
  pub sorted : SortedFrom 0 r
  pub in_order : (d ≡ 0) ↔ All (λ p. p.seq ≤ x.seq) q
  pub at_most_one : d ≤ 1

-- insert never fails on a queue in order, and keeps the promise above.
pub insert_queue-Inserts :
    (q : List RtpPackInfo) (x : RtpPackInfo)
    → SortedFrom 0 q
    → (r : List RtpPackInfo) × (d : ℕ) × Inserts q x r d
unfolding insert_queue
insert_queue-Inserts [] x s = (
  x ∷ [],
  0,
  record {
    result = refl;
    placed = here;
    sorted = (omega arith, tt);
    in_order = (λ _. tt, λ _. refl);
    at_most_one = omega arith;
  },
)
insert_queue-Inserts (p ∷ ps) x s = elim (Bool-cases (leb (last_seq p ps) x.seq)) [
  | inl le ↦ (
    (p ∷ ps) ++ (x ∷ []),
    0,
    record {
      result = rw le;
      placed = Insertion-snoc x (p ∷ ps);
      sorted = SortedFrom-snoc 0 p ps x s (leb→le _ _ le);
      in_order = (λ _. SortedFrom-All 0 p ps x.seq s (leb→le _ _ le), λ _. refl);
      at_most_one = omega arith;
    },
  )
  | inr gt ↦ elim (Bool-cases (ltb x.seq p.seq)) [
    | inl lt ↦ (
      x ∷ p ∷ ps,
      1,
      record {
        result = rw (gt, lt);
        placed = here;
        sorted = (omega arith, (ground arith, s.1));
        in_order = (λ e. absurd (omega arith), λ a. absurd (later a gt));
        at_most_one = omega arith;
      },
    )
    | inr ge ↦
        let (r, e, i, so) = insert_range-sorts 0 p ps x s (omega arith) (ground arith) in
        (
          r,
          1,
          record {
            result = rw (gt, ge, e);
            placed = i;
            sorted = so;
            in_order = (λ e. absurd (omega arith), λ a. absurd (later a gt));
            at_most_one = omega arith;
          },
        )
  ]
]
  where
    later : All (λ q. q.seq ≤ x.seq) (p ∷ ps) → leb (last_seq p ps) x.seq ≡ false → ⊥
    later a gt = ground (arith, All-last p ps x.seq a)

-- insert never fails on a queue whose sequence numbers do not fall. The result is a permutation of
-- the queue with the packet added, its sequence numbers do not fall either, and the packet is counted
-- as out of order exactly when some packet of the queue has a higher number.
pub insert_queue-sorts :
    (q : List RtpPackInfo) (x : RtpPackInfo)
    → SortedFrom 0 q
    → (r : List RtpPackInfo) × (d : ℕ) × (insert_queue q x ≡ some (r, d))
      × Perm r (x ∷ q)
      × SortedFrom 0 r
      × ((d ≡ 0) ↔ All (λ p. p.seq ≤ x.seq) q)
      × (d ≤ 1)
insert_queue-sorts q x s =
    let (r, d, i) = insert_queue-Inserts q x s in
    (r, d, i.result, Insertion-perm i.placed, i.sorted, i.in_order, i.at_most_one)
