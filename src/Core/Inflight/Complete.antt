-- ===== src/Core/Inflight/Complete.antt =====
-- core/inflight.go:Complete: what it takes out of flight, and which offset it offers for commit.
use goactor.Prelude.{
  ◌≡◌, refl, sym, ◌∙◌, Bool, true, false, ◌||◌, ◌&&◌, ◌⊎◌, List, [], ◌∷◌, Option, none, some, arith,
  if◌then◌else◌, ite, if_pos, if_neg, ℤ, pos, le_ℤ, ◌≤ℤ◌, ◌<ℤ◌, ◌+ℤ◌, inl, inr, Option-cases,
  Bool-cases, Str, Str_discrete,
}
use goactor.Core.Inflight.{Inflight, InflightComplete, remove, remove_all, settle, complete}
use goactor.Core.Inflight.Prefix.{
  le_of_covered, covered_of_le, holds-covered-rest, IsAscending, rest-IsAscending,
}
use goactor.Core.Inflight.Remove.{owner, offsets_of, owner-remove, offsets_of-remove, remove_bounds}
use goactor.Core.Inflight.Invariant.{IsTracked, IsValid, remove-IsTracked, remove_all-IsTracked}
use goactor.Core.Inflight.Settle.{
  IsIdle, Settled, emptied, still_idle, moved, unmoved, owner-settle, settle-Settled,
  settle-IsValid, next_parts,
}

-- A completion covers an offset of its actor up to its bound.
unfoldable pub is_covered : List InflightComplete → Str → ℤ → Bool
is_covered [] a q = false
is_covered (item ∷ items) a q =
    (ite (Str_discrete item.actor_id a) true false && le_ℤ q item.max_offset)
    || is_covered items a q

-- What a list of completions leaves of an offset in flight.
unfoldable pub uncovered : List InflightComplete → ℤ → Option Str → Option Str
unfolding is_covered
uncovered items q none = none
uncovered items q (some a) = if is_covered items a q then none else some a

-- Every actor's offsets were added in ascending order.
abbrev pub IsOrdered : Inflight → Type 0
IsOrdered f = (a : Str) → IsAscending (offsets_of f a)

remove_all_bounds :
    (f : Inflight) (need : Bool) (items : List InflightComplete)
    → ((remove_all f need items).0.min_offset ≡ f.min_offset)
      × ((remove_all f need items).0.max_offset ≡ f.max_offset)
unfolding remove_all
remove_all_bounds f need [] = (refl, refl)
remove_all_bounds f need (item ∷ items) =
    let (f', more) = remove f item.actor_id item.max_offset in
    let (low, high, limit) = remove_bounds f item.actor_id item.max_offset in
    let ih = remove_all_bounds f' (if more then true else need) items in (ih.0 ∙ low, ih.1 ∙ high)

-- Complete keeps a well-formed window well-formed, whatever its completions.
pub complete-IsValid :
    {f : Inflight} (items : List InflightComplete) → IsValid f → IsValid (complete f items).0
unfolding complete
complete-IsValid {f} items v =
    settle-IsValid (remove_all f false items).1 (remove_all-IsTracked items false v.tracked)

-- A next offset that is safe to commit: it lies past the old minimum, nothing left in flight lies
-- below it, and it is the least offset in flight or the successor of the last one added.
pub record IsSafeCommit (f f' : Inflight) (next : ℤ) : Type 0 where
  pub forward : f.min_offset <ℤ next
  pub below : (a : Str) (q : ℤ) → owner f' q ≡ some a → next ≤ℤ q
  pub exact : (IsIdle f' × (next ≡ f.max_offset +ℤ pos 1)) ⊎ ((a : Str) × (owner f' next ≡ some a))

module _ {f g : Inflight} (t : IsTracked g) (low : g.min_offset ≡ f.min_offset)
    (high : g.max_offset ≡ f.max_offset) (r : Inflight × ℤ × Bool)
    (same : (q : ℤ) → owner r.0 q ≡ owner g q) where
  Settled-IsSafeCommit : Settled g r → r.2 ≡ true → IsSafeCommit f r.0 r.1
  Settled-IsSafeCommit (emptied idle o next _ _ _) h = record {
    forward = ground (arith, t.bounds, next_parts g.max_offset o);
    below = λ a q e. absurd (ground (arith, same q, idle q));
    exact = inl (λ q. same q ∙ idle q, rw (next, high));
  }
  Settled-IsSafeCommit (still_idle _ _ e _) h = absurd (ground arith)
  Settled-IsSafeCommit (moved m _ _ e) h = record {
    forward = ground arith;
    below = λ a q e. m.below a q (sym (same q) ∙ e);
    exact = inr (m.actor, same r.1 ∙ m.owned);
  }
  Settled-IsSafeCommit (unmoved _ _ e) h = absurd (ground arith)

-- When Complete of a well-formed window says that it advanced, the next offset lies past the old
-- minimum, nothing left in flight lies below it, and it is the least offset in flight or, if none is
-- left, the successor of the largest one that was added.
pub complete-IsSafeCommit :
    {f : Inflight} (items : List InflightComplete)
    → IsValid f
    → (complete f items).2 ≡ true
    → IsSafeCommit f (complete f items).0 (complete f items).1
unfolding complete
complete-IsSafeCommit {f} items v =
    let (g, need) = remove_all f false items in
    let t = remove_all-IsTracked items false v.tracked in
    let (low, high) = remove_all_bounds f false items in
    Settled-IsSafeCommit t low high (settle g need) (owner-settle g need) (settle-Settled need t)

module _ {f : Inflight} (t : IsTracked f) (a : Str) (m : ℤ) where
  -- remove takes no offset of another actor, and none above its bound.
  owner-remove_kept :
      (b : Str) (q : ℤ)
      → owner f q ≡ some b
      → (ite (Str_discrete a b) true false && le_ℤ q m) ≡ false
      → owner (remove f a m).0 q ≡ some b
  owner-remove_kept b q h c = ground (
    arith,
    owner-remove f a m q,
    holds-covered-rest m (offsets_of f a) q,
    t.listed a q,
    le_of_covered m (offsets_of f a) q,
  )

  -- If the list is ascending it takes every offset of its actor up to the bound.
  owner-remove_taken :
      (b : Str) (q : ℤ)
      → IsAscending (offsets_of f a)
      → owner f q ≡ some b
      → (ite (Str_discrete a b) true false && le_ℤ q m) ≡ true
      → owner (remove f a m).0 q ≡ none
  owner-remove_taken b q asc h c =
      ground (arith, owner-remove f a m q, t.listed a q, covered_of_le m (offsets_of f a) q asc)

  owner-remove-none : (q : ℤ) → owner f q ≡ none → owner (remove f a m).0 q ≡ none
  owner-remove-none q h = ground (arith, owner-remove f a m q)

  remove-IsOrdered : IsOrdered f → IsOrdered (remove f a m).0
  remove-IsOrdered o b = rw (offsets_of-remove f a m b) (elim (Str_discrete b a) [
    | yes p ↦ rw (if_pos _ p) (rest-IsAscending m (offsets_of f a) (o a))
    | no p ↦ rw (if_neg _ p) (o b)
  ])

uncovered-nil : (q : ℤ) (h : Option Str) → h ≡ uncovered [] q h
unfolding uncovered is_covered
uncovered-nil q none = refl
uncovered-nil q (some a) = refl

module _ {f : Inflight} (t : IsTracked f) (item : InflightComplete)
    (items : List InflightComplete) where
  abbrev removed : Inflight
  removed = (remove f item.actor_id item.max_offset).0

  uncovered-remove :
      (q : ℤ)
      → IsAscending (offsets_of f item.actor_id)
      → uncovered items q (owner removed q) ≡ uncovered (item ∷ items) q (owner f q)
  unfolding uncovered is_covered
  uncovered-remove q asc = elim (Option-cases (owner f q)) [
    | inl e ↦ rw (e, owner-remove-none t item.actor_id item.max_offset q e)
    | inr (b, e) ↦
        elim (Bool-cases
          (ite (Str_discrete item.actor_id b) true false && le_ℤ q item.max_offset)) [
            | inl c ↦ rw (e, c, owner-remove_taken t item.actor_id item.max_offset b q asc e c)
            | inr c ↦ rw (e, c, owner-remove_kept t item.actor_id item.max_offset b q e c)
          ]
  ]

remove_all_kept :
    (items : List InflightComplete) {f : Inflight} (need : Bool) (a : Str) (q : ℤ)
    → IsTracked f
    → owner f q ≡ some a
    → is_covered items a q ≡ false
    → owner (remove_all f need items).0 q ≡ some a
unfolding remove_all is_covered
remove_all_kept [] need a q t h c = h
remove_all_kept (item ∷ items) {f} need a q t h c =
    remove_all_kept items (if (remove f item.actor_id item.max_offset).1 then true else need) a q
      (remove-IsTracked item.actor_id item.max_offset t)
      (owner-remove_kept t item.actor_id item.max_offset a q h (ground arith)) (ground arith)

remove_all-uncovered :
    (items : List InflightComplete) {f : Inflight} (need : Bool) (q : ℤ)
    → IsTracked f
    → IsOrdered f
    → owner (remove_all f need items).0 q ≡ uncovered items q (owner f q)
unfolding remove_all
remove_all-uncovered [] {f} need q t o = uncovered-nil q (owner f q)
remove_all-uncovered (item ∷ items) {f} need q t o =
    remove_all-uncovered items (if (remove f item.actor_id item.max_offset).1 then true else need) q
      (remove-IsTracked item.actor_id item.max_offset t)
      (remove-IsOrdered t item.actor_id item.max_offset o)
    ∙ uncovered-remove t item items q (o item.actor_id)

-- Complete of a well-formed window keeps in flight, for its actor, every offset that its
-- completions do not cover.
pub owner-complete_kept :
    {f : Inflight} (items : List InflightComplete) (a : Str) (q : ℤ)
    → IsValid f
    → owner f q ≡ some a
    → is_covered items a q ≡ false
    → owner (complete f items).0 q ≡ some a
unfolding complete
owner-complete_kept {f} items a q v h c =
    owner-settle (remove_all f false items).0 (remove_all f false items).1 q
    ∙ remove_all_kept items false a q v.tracked h c

-- If a window is well-formed and every actor's offsets were added in ascending order, Complete takes
-- out of flight exactly the offsets that its completions cover.
pub owner-complete :
    {f : Inflight} (items : List InflightComplete) (q : ℤ)
    → IsValid f
    → IsOrdered f
    → owner (complete f items).0 q ≡ uncovered items q (owner f q)
unfolding complete
owner-complete {f} items q v o =
    owner-settle (remove_all f false items).0 (remove_all f false items).1 q
    ∙ remove_all-uncovered items false q v.tracked o

owner-remove_sub :
    (f : Inflight) (a : Str) (m : ℤ) (b : Str) (q : ℤ)
    → owner (remove f a m).0 q ≡ some b
    → owner f q ≡ some b
owner-remove_sub f a m b q h = ground (arith, owner-remove f a m q)

remove_all_sub :
    (items : List InflightComplete) (f : Inflight) (need : Bool) (a : Str) (q : ℤ)
    → owner (remove_all f need items).0 q ≡ some a
    → owner f q ≡ some a
unfolding remove_all
remove_all_sub [] f need a q h = h
remove_all_sub (item ∷ items) f need a q h = owner-remove_sub f item.actor_id item.max_offset a q (
    remove_all_sub items (remove f item.actor_id item.max_offset).0
      (if (remove f item.actor_id item.max_offset).1 then true else need) a q h)

-- Complete puts nothing into flight.
pub owner-complete_sub :
    (f : Inflight) (items : List InflightComplete) (a : Str) (q : ℤ)
    → owner (complete f items).0 q ≡ some a
    → owner f q ≡ some a
unfolding complete
owner-complete_sub f items a q h =
    remove_all_sub items f false a q
      (sym (owner-settle (remove_all f false items).0 (remove_all f false items).1 q) ∙ h)
