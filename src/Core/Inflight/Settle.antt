-- ===== src/Core/Inflight/Settle.antt =====
-- The end of core/inflight.go:Complete: the next offset, and the window that is left.
use goactor.Prelude.{
  ◌+◌, ◌≡◌, refl, sym, ◌∙◌, ◌≢◌, Bool, true, false, List, [], none, some, Option-cases, arith, ◌==◌,
  ℤ, pos, negsuc, ℤ_discrete, lt_ℤ, eq_ℤ, ◌≤ℤ◌, ◌<ℤ◌, ◌+ℤ◌, wrap64, Bool-cases, inl, inr, pos_part,
  neg_part, Str,
}
use goactor.Prelude.Assoc.{contains, keys}
use goactor.Structs.Map
use goactor.Structs.Map.Laws.{
  contains-get_map, get-of_contains, get-get_map, get_length-eq-zero_iff,
}
use goactor.Core.Inflight.{Inflight, no_offset, least, reset_min_offset, settle}
use goactor.Core.Inflight.Prefix.{holds}
use goactor.Core.Inflight.Remove.{owner, offsets_of}
use goactor.Core.Inflight.Invariant.{IsOffset, IsTracked, IsValid, HasBounds}
use goactor.Core.Inflight.Least.{least_start}

abbrev tracked_offsets : Inflight → List ℤ
tracked_offsets f = keys (Map.get_map f.offset_actor).0

-- Nothing is in flight.
abbrev pub IsIdle : Inflight → Type 0
IsIdle f = (q : ℤ) → owner f q ≡ none

-- `r` is in flight, and nothing in flight is below it.
pub record IsMinimum (f : Inflight) (r : ℤ) : Type 0 where
  pub actor : Str
  pub owned : owner f r ≡ some actor
  pub below : (a : Str) (q : ℤ) → owner f q ≡ some a → r ≤ℤ q

-- The successor of an offset does not wrap.
pub next_parts :
    (o : ℤ) → IsOffset o → pos_part (o +ℤ pos 1) ≡ pos_part o + 1 + neg_part (o +ℤ pos 1)
unfolding ◌+ℤ◌ wrap64
next_parts (pos n) h = ground arith
next_parts (negsuc n) h = absurd (omega arith)

IsIdle-of_no_keys : (f : Inflight) → tracked_offsets f ≡ [] → IsIdle f
unfolding contains
IsIdle-of_no_keys f e q = elim (Option-cases (owner f q)) [
  | inl h ↦ h
  | inr (a, h) ↦ absurd (ground (arith, contains-get_map ℤ_discrete f.offset_actor q a h))
]

module _ {f : Inflight} (t : IsTracked f) where
  least-IsMinimum :
      (Map.get_length f.offset_actor ≢ 0) → IsMinimum f (least no_offset (tracked_offsets f))
  least-IsMinimum busy = record {
    actor = at.0;
    owned = at.1;
    below = λ a q e. found.1 q (contains-get_map ℤ_discrete f.offset_actor q a e);
  }
    where
      nonneg : (q : ℤ) → holds (tracked_offsets f) q ≡ true → pos 0 ≤ℤ q
      nonneg q e =
          let (a, h) = get-of_contains ℤ_discrete f.offset_actor q e in (t.within a q h).0.0

      nonempty : tracked_offsets f ≢ []
      nonempty e =
          busy ((get_length-eq-zero_iff ℤ_discrete f.offset_actor).1 (IsIdle-of_no_keys f e))

      found :
          (holds (tracked_offsets f) (least no_offset (tracked_offsets f)) ≡ true)
          × ((q : ℤ)
              → holds (tracked_offsets f) q ≡ true
              → least no_offset (tracked_offsets f) ≤ℤ q)
      found = least_start (tracked_offsets f) nonneg nonempty

      at : (a : Str) × (owner f (least no_offset (tracked_offsets f)) ≡ some a)
      at = get-of_contains ℤ_discrete f.offset_actor _ found.0

  -- resetMinOffset puts the minimum at the least offset in flight.
  reset_min_offset-IsMinimum :
      (Map.get_length f.offset_actor ≢ 0) → IsMinimum f (reset_min_offset f).min_offset
  unfolding reset_min_offset
  reset_min_offset-IsMinimum busy =
      let h = least-IsMinimum busy in
      elim (Bool-cases (eq_ℤ (least no_offset (tracked_offsets f)) no_offset)) [
        | inl e ↦
            absurd (ground (arith, t.within h.actor (least no_offset (tracked_offsets f)) h.owned))
        | inr e ↦ rw e h
      ]

-- resetMinOffset changes the minimum only.
owner-reset_min_offset : (f : Inflight) (q : ℤ) → owner (reset_min_offset f) q ≡ owner f q
unfolding reset_min_offset
owner-reset_min_offset f q = get-get_map ℤ_discrete f.offset_actor q

max_offset-reset_min_offset : (f : Inflight) → (reset_min_offset f).max_offset ≡ f.max_offset
unfolding reset_min_offset
max_offset-reset_min_offset f = refl

-- The end of Complete takes nothing out of flight.
pub owner-settle : (f : Inflight) (need : Bool) (q : ℤ) → owner (settle f need).0 q ≡ owner f q
unfolding settle
owner-settle f need q = ground (arith, owner-reset_min_offset f q)

offsets_of-settle :
    (f : Inflight) (need : Bool) (a : Str) → offsets_of (settle f need).0 a ≡ offsets_of f a
unfolding settle reset_min_offset
offsets_of-settle f need a = ground arith

-- Three ways to end: nothing left in flight, the minimum reset, or no change.
pub data Settled (f : Inflight) (r : Inflight × ℤ × Bool) : Type 0 where
  emptied :
      IsIdle f
      → IsOffset f.max_offset
      → r.1 ≡ f.max_offset +ℤ pos 1
      → r.2 ≡ true
      → r.0.min_offset ≡ no_offset
      → r.0.max_offset ≡ no_offset
      → Settled f r
  still_idle : IsIdle f → f.max_offset <ℤ pos 0 → r.2 ≡ false → r.0 ≡ f → Settled f r
  moved :
      IsMinimum f r.1
      → r.0.min_offset ≡ r.1
      → r.0.max_offset ≡ f.max_offset
      → r.2 ≡ lt_ℤ f.min_offset r.1
      → Settled f r
  unmoved : (IsIdle f → ⊥) → r.0 ≡ f → r.2 ≡ false → Settled f r

pub settle-Settled : {f : Inflight} (need : Bool) → IsTracked f → Settled f (settle f need)
unfolding settle
settle-Settled {f} need t = elim (Bool-cases (Map.get_length f.offset_actor == 0)) [
  | inl none_left ↦
      let idle = (get_length-eq-zero_iff ℤ_discrete f.offset_actor).0 (ground arith) in
      elim (Bool-cases (lt_ℤ f.max_offset (pos 0))) [
        | inl unset ↦ rw (none_left, unset) (still_idle idle (ground arith) refl refl)
        | inr used ↦
            rw (none_left, used) (emptied idle (ground (arith, t.bounds)) refl refl refl refl)
      ]
  | inr some_left ↦
      let busy : Map.get_length f.offset_actor ≢ 0 = ground arith in
      elim (Bool-cases need) [
        | inl yes_need ↦
            rw (some_left, yes_need)
              (moved (reset_min_offset-IsMinimum t busy) refl (max_offset-reset_min_offset f) refl)
        | inr no_need ↦
            rw (some_left, no_need)
              (unmoved (λ i. busy ((get_length-eq-zero_iff ℤ_discrete f.offset_actor).1 i)) refl
                refl)
      ]
]

module _ {f : Inflight} (t : IsTracked f) (r : Inflight × ℤ × Bool)
    (same : (q : ℤ) → owner r.0 q ≡ owner f q) where
  bounds_of : Settled f r → HasBounds r.0
  bounds_of (emptied idle _ _ _ low high) = inl (low, high)
  bounds_of (still_idle _ _ _ e) = rw e t.bounds
  bounds_of (moved m low high _) =
      rw (low, high) (inr (ground (arith, t.within m.actor r.1 m.owned, t.bounds)))
  bounds_of (unmoved _ e _) = rw e t.bounds

  within_of :
      Settled f r → (a : Str) (q : ℤ) → owner r.0 q ≡ some a → IsOffset q × (q ≤ℤ r.0.max_offset)
  within_of (emptied idle _ _ _ low high) a q h = absurd (ground (arith, idle q, same q))
  within_of (still_idle _ _ _ e) a q h = rw e (t.within a q (ground (arith, same q)))
  within_of (moved m low high _) a q h = rw high (t.within a q (ground (arith, same q)))
  within_of (unmoved _ e _) a q h = rw e (t.within a q (ground (arith, same q)))

  idle_of : Settled f r → IsIdle r.0 → (r.0.min_offset ≡ no_offset) × (r.0.max_offset ≡ no_offset)
  idle_of (emptied idle _ _ _ low high) i = (low, high)
  idle_of (still_idle _ h _ e) i = rw e (ground (arith, t.bounds))
  idle_of (moved m low high _) i = absurd (ground (arith, same r.1, i r.1, m.owned))
  idle_of (unmoved busy _ e) i = absurd (busy (λ q. sym (same q) ∙ i q))

-- The end of Complete leaves a well-formed window.
pub settle-IsValid : {f : Inflight} (need : Bool) → IsTracked f → IsValid (settle f need).0
settle-IsValid {f} need t = record {
  tracked = record {
    listed = λ a q. rw (offsets_of-settle f need a, owner-settle f need q) (t.listed a q);
    distinct = λ a. rw (offsets_of-settle f need a) (t.distinct a);
    within = within_of t r (owner-settle f need) (settle-Settled need t);
    bounds = bounds_of t r (owner-settle f need) (settle-Settled need t);
  };
  idle = idle_of t r (owner-settle f need) (settle-Settled need t);
}
  where
    r : Inflight × ℤ × Bool
    r = settle f need
