-- ===== src/MediaService/View.antt =====
-- The pool of client indices of mk_media_service.cpp as two finite multisets: the order in which the
-- free list hands out its indices, and in which the clients were created, is forgotten.
use mathlib.Core.List.{map-append, perm_middle, append-nil}
use mathlib.Core.Quot.{sound}
use mathlib.Mathlib.Data.Multiset.Defs.{Multiset, of_list}
use mathlib.Mathlib.Data.Multiset.ZeroCons.{cons}
use lib_media_service.Common.{ℕ, ◌≡◌, refl, ap, ◌∙◌, List, [], ◌∷◌, ◌++◌, map}
use lib_media_service.MediaService.{destory_client}
use lib_media_service.MediaService.Clients.{
  Client, World, Step, creates, refuses, destroys, indices, created-front, refused-same,
}

-- What the pool promises: a set of identifiers to take from, and those taken.
pub record Identifiers : Type 0 where
  pub unused : Multiset ℕ
  pub taken : Multiset ℕ

abbrev pub identifiers : World → Identifiers
identifiers w = record {
  unused = of_list w.service.client_free_list;
  taken = of_list (indices w.clients);
}

-- The only moves: an unused identifier is taken, a taken one is returned, or nothing changes.
pub data Promise (a b : Identifiers) : Type 0 where
  idles : b ≡ a → Promise a b
  takes : (id : ℕ) → a.unused ≡ cons id b.unused → b.taken ≡ cons id a.taken → Promise a b
  returns : (id : ℕ) → b.unused ≡ cons id a.unused → a.taken ≡ cons id b.taken → Promise a b

of_list-middle :
    (front back : List ℕ) (id : ℕ)
    → ◌≡◌ {A = Multiset ℕ} (of_list (front ++ (id ∷ back))) (of_list (id ∷ front ++ back))
of_list-middle front back id = sound (perm_middle front back)

-- Every call of create_client and destory_client is a move of the abstract pool.
pub Step-Promise : {v w : World} → Step v w → Promise (identifiers v) (identifiers w)
unfolding destory_client
Step-Promise (creates {s} {s'} {clients} alloc url cb c e) =
    takes c.1.index (ap of_list (created-front alloc s s' url cb c e)) refl
Step-Promise (refuses {s} {s'} {clients} alloc url cb e) =
    idles (rw (refused-same alloc s s' url cb e) refl)
Step-Promise (destroys {s} front back c) =
    let index : Client → ℕ = λ d. d.1.index in
    returns c.1.index
      (of_list-middle s.client_free_list [] c.1.index
        ∙ ap (λ l. of_list (c.1.index ∷ l)) (append-nil s.client_free_list))
      (rw (map-append index front back, map-append index front (c ∷ back))
        (of_list-middle (map index front) (map index back) c.1.index))
