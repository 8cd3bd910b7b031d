-- ===== src/Core/Inflight/Again.antt =====
-- core/inflight.go: what happens to an offset that is delivered again to an empty window.
use goactor.Prelude.{◌≡◌, refl, ◌∙◌, Bool, true, false, List, [], ◌∷◌, arith, ℤ, pos, ◌+ℤ◌, Str}
use goactor.Prelude.Assoc.{contains}
use goactor.Core.Inflight.{
  Inflight, InflightComplete, add_bounds, add, remove_all, settle, complete,
}
use goactor.Core.Inflight.Prefix.{holds, covered}
use goactor.Core.Inflight.Remove.{offsets_of, owner-remove, remove_bounds}
use goactor.Core.Inflight.Invariant.{
  IsOffset, IsTracked, IsValid, owner-add, offsets_of-add, add-IsTracked, remove_all-IsTracked,
}
use goactor.Core.Inflight.Settle.{
  IsIdle, Settled, emptied, still_idle, moved, unmoved, owner-settle, settle-Settled,
}

nil_of_none : (l : List ℤ) → ((q : ℤ) → holds l q ≡ true → ⊥) → l ≡ []
unfolding contains
nil_of_none [] h = refl
nil_of_none (o ∷ l) h = absurd (h o (ground arith))

module _ {f : Inflight} (o : ℤ) (a : Str) (v : IsValid f) (idle : IsIdle f)
    (offset : IsOffset o) where
  abbrev again : InflightComplete
  again = record { actor_id = a; max_offset = o }

  abbrev left : Inflight
  left = (remove_all (add f o a) false (again ∷ [])).0

  only_list : offsets_of (add f o a) a ≡ o ∷ []
  unfolding contains
  only_list =
      let empty =
        nil_of_none (offsets_of f a) (λ q h. ground (arith, v.tracked.listed a q, idle q)) in
      ground (arith, offsets_of-add f o a a)

  max_of_left : left.max_offset ≡ o
  unfolding add add_bounds remove_all
  max_of_left = ground (arith, remove_bounds (add f o a) a o, v.idle idle)

  left-IsIdle : IsIdle left
  unfolding remove_all covered contains
  left-IsIdle q =
      ground (arith, owner-remove (add f o a) a o q, only_list, owner-add f o a q, idle q)

  left-IsTracked : IsTracked left
  left-IsTracked =
      remove_all-IsTracked (again ∷ []) false
        (add-IsTracked o a v.tracked offset (λ b h. absurd (ground (arith, idle o))))

  next_of : (r : Inflight × ℤ × Bool) → Settled left r → (r.1 ≡ o +ℤ pos 1) × (r.2 ≡ true)
  next_of r (emptied _ _ next advanced _ _) = (next ∙ (rw max_of_left), advanced)
  next_of r (still_idle _ h _ _) = absurd (ground (arith, max_of_left))
  next_of r (moved m _ _ _) = absurd (ground (arith, m.owned, left-IsIdle r.1))
  next_of r (unmoved busy _ _) = absurd (busy left-IsIdle)

  -- In a well-formed window with nothing in flight, an offset that is not negative, whatever was
  -- committed before, is offered for commit when it is added and completed, with its successor as the
  -- next offset, and the window is empty again.
  pub complete-add-IsIdle :
      let (f', next, advanced) = complete (add f o a) (again ∷ []) in
      (next ≡ o +ℤ pos 1) × (advanced ≡ true) × IsIdle f'
  unfolding complete
  complete-add-IsIdle =
      let need = (remove_all (add f o a) false (again ∷ [])).1 in
      let (next, advanced) = next_of (settle left need) (settle-Settled need left-IsTracked) in
      (next, advanced, λ q. owner-settle left need q ∙ left-IsIdle q)
