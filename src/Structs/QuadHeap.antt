-- ===== src/Structs/QuadHeap.antt =====
-- structs/quadheap.go: a heap of four children per node, with the index of each key.
-- `indexes` is an association list. A deadline type is given with its order and equality. An index
-- out of range panics. The sequence is a uint64.
pub mod Fuel
pub mod Order
pub mod Index
pub mod Up
pub mod Down
pub mod Fix
pub mod Valid
pub mod Remove
pub mod Release
pub mod Insert
pub mod Update
mod Tests
mod Samples
use mathlib.Core.List.{lookup}
use goactor.Prelude.{
  ℕ, zero, suc, ◌+◌, ◌-◌, ◌*◌, ◌/◌, ◌%◌, ◌^◌, Bool, true, false, not, ◌&&◌, ◌||◌, List, [], ◌∷◌,
  Option, none, some, ltb, leb, ◌==◌, if◌then◌else◌, ite, Run, ok, panic, ◌>>=◌,
}
use goactor.Prelude.Assoc.{length, ◌∷ʳ◌, insert, delete}
use goactor.Prelude.Slice.{get_elem?, take, load, store}

pub record HeapItem (K V W : Type 0) : Type 0 where
  pub key : K
  pub value : V
  pub when : W

pub record HeapEntry (K V W : Type 0) : Type 0 where
  pub item : HeapItem K V W
  pub sequence : ℕ

pub record QuadHeap (K V W : Type 0) : Type 0 where
  pub items : List (HeapEntry K V W)
  pub indexes : List (K × ℕ)
  pub next_seq : ℕ

-- `0, 1, …, n - 1` from `i` on
unfoldable pub indices : ℕ → ℕ → List ℕ
indices i zero = []
indices i (suc n) = i ∷ indices (i + 1) n

module _ {K V W : Type 0} where
  -- NewQuadHeap: the capacity is a hint to the allocator.
  unfoldable pub new_quad_heap : ℕ → QuadHeap K V W
  new_quad_heap capacity = record { items = []; indexes = []; next_seq = 0 }

  unfoldable pub len : QuadHeap K V W → ℕ
  len h = length h.items

  -- Peek
  unfoldable pub peek : QuadHeap K V W → Option (HeapItem K V W)
  peek h = elim (get_elem? h.items 0) [ none ↦ none | some e ↦ some e.item ]

  -- The sort of renumberSequences, by the sequence of the entry at an index.
  unfoldable pub sequence_at : List (HeapEntry K V W) → ℕ → ℕ
  sequence_at items i = elim (get_elem? items i) [ none ↦ 0 | some e ↦ e.sequence ]

  unfoldable pub insert_index : List (HeapEntry K V W) → ℕ → List ℕ → List ℕ
  insert_index items i [] = i ∷ []
  insert_index items i (j ∷ order) =
      let rest = insert_index items i order in
      if ltb (sequence_at items i) (sequence_at items j) then i ∷ j ∷ order else j ∷ rest

  unfoldable pub sort_indices : List (HeapEntry K V W) → List ℕ → List ℕ
  sort_indices items [] = []
  sort_indices items (i ∷ order) = insert_index items i (sort_indices items order)

  -- Its last loop, from rank `sequence` on.
  unfoldable pub number : List (HeapEntry K V W) → ℕ → List ℕ → Run (List (HeapEntry K V W))
  number items sequence [] = ok items
  number items sequence (index ∷ order) = do
    entry ← load items index
    items' ← store items index (record entry { sequence = sequence })
    number items' (sequence + 1) order

  -- renumberSequences
  unfoldable pub renumber_sequences : QuadHeap K V W → Run (QuadHeap K V W)
  renumber_sequences h = do
    items ← number h.items 0 (sort_indices h.items (indices 0 (length h.items)))
    ok (record h { items = items; next_seq = length h.items % 2 ^ 64 })

module _ {K V W : Type 0} (dec : Discrete K) (lt eq : W → W → Bool) where
  -- `left < right` on entries
  unfoldable pub precedes : HeapEntry K V W → HeapEntry K V W → Bool
  precedes left right =
      lt left.item.when right.item.when
      || (eq left.item.when right.item.when && ltb left.sequence right.sequence)

  -- less
  unfoldable pub less : QuadHeap K V W → ℕ → ℕ → Run Bool
  less h i j = do left ← load h.items i; right ← load h.items j; ok (precedes left right)

  -- swap
  unfoldable pub swap : QuadHeap K V W → ℕ → ℕ → Run (QuadHeap K V W)
  swap h i j = do
    left ← load h.items i
    right ← load h.items j
    items ← store h.items i right
    items' ← store items j left
    ok (record h {
      items = items';
      indexes = insert dec left.item.key j (insert dec right.item.key i h.indexes);
    })

  -- siftUp, with `fuel` rounds at most; `i` rounds are enough, since the parent lies below `i`.
  unfoldable pub sift_up : ℕ → QuadHeap K V W → ℕ → Run (QuadHeap K V W)
  sift_up zero h i = ok h
  sift_up (suc fuel) h i = if i == 0 then ok h else (do
    below ← less h i ((i - 1) / 4)
    h' ← swap h i ((i - 1) / 4)
    let done = sift_up fuel h' ((i - 1) / 4)
    if not below then ok h else done)

  -- The inner loop of siftDown, over `n` children from `child` on.
  unfoldable pub least_child : ℕ → QuadHeap K V W → ℕ → ℕ → Run ℕ
  least_child zero h child least = ok least
  least_child (suc n) h child least = if not (ltb child (length h.items)) then ok least else (do
    below ← less h child least
    least_child n h (child + 1) (if below then child else least))

  -- siftDown, with `fuel` rounds at most; as many rounds as there are items are enough.
  unfoldable pub sift_down : ℕ → QuadHeap K V W → ℕ → Run (QuadHeap K V W)
  sift_down zero h i = ok h
  sift_down (suc fuel) h i = do
    least ← least_child 4 h (4 * i + 1) i
    h' ← swap h i least
    let done = sift_down fuel h' least
    if least == i then ok h else done

  -- fix
  unfoldable pub fix : QuadHeap K V W → ℕ → Run (QuadHeap K V W)
  fix h i =
      if ltb 0 i
      then (do
        below ← less h i ((i - 1) / 4)
        if below then sift_up i h i else sift_down (length h.items) h i)
      else sift_down (length h.items) h i

  -- Insert: the heap, and whether the key was new.
  unfoldable pub insert_item : QuadHeap K V W → K → V → W → Run (QuadHeap K V W × Bool)
  insert_item h key value when = elim (lookup dec key h.indexes) [
    | some i ↦ ok (h, false)
    | none ↦ (do
      h1 ← if h.next_seq == 2 ^ 64 - 1 then renumber_sequences h else ok h
      let entry : HeapEntry K V W = record {
        item = record { key = key; value = value; when = when };
        sequence = h1.next_seq;
      }
      let h2 : QuadHeap K V W = record {
        items = h1.items ∷ʳ entry;
        indexes = insert dec key (length h1.items) h1.indexes;
        next_seq = (h1.next_seq + 1) % 2 ^ 64;
      }
      h3 ← sift_up (length h1.items) h2 (length h1.items)
      ok (h3, true))
  ]

  -- removeAt: the heap, and the item that it removed.
  unfoldable pub remove_at : QuadHeap K V W → ℕ → Run (QuadHeap K V W × HeapItem K V W)
  remove_at h i = do
    entry ← load h.items i
    let indexes = delete dec entry.item.key h.indexes
    let last = length h.items - 1
    (if i == last
        then ok (
          record {
            items = take last h.items;
            indexes = indexes;
            next_seq = if last == 0 then 0 else h.next_seq;
          },
          entry.item,
        )
        else (do
          moved ← load h.items last
          items ← store h.items i moved
          h' ←
              fix
                (record {
                  items = take last items;
                  indexes = insert dec moved.item.key i indexes;
                  next_seq = h.next_seq;
                })
                i
          ok (h', entry.item)))

  -- Pop
  unfoldable pub pop : QuadHeap K V W → Run (QuadHeap K V W × Option (HeapItem K V W))
  pop h =
      if length h.items == 0
      then ok (h, none)
      else (do (h', item) ← remove_at h 0; ok (h', some item))

  -- Update: the heap, and whether the key was there.
  unfoldable pub update : QuadHeap K V W → K → V → W → Run (QuadHeap K V W × Bool)
  update h key value when = elim (lookup dec key h.indexes) [
    | none ↦ ok (h, false)
    | some i ↦ (do
      entry ← load h.items i
      items ←
          store h.items i
            (record entry { item = record (entry.item) { value = value; when = when } })
      h' ← fix (record h { items = items }) i
      ok (h', true))
  ]

  -- Upsert: the heap, and whether the item is new.
  unfoldable pub upsert : QuadHeap K V W → K → V → W → Run (QuadHeap K V W × Bool)
  upsert h key value when = do
    (h1, updated) ← update h key value when
    (if updated
        then ok (h1, false)
        else (do (h2, _) ← insert_item h1 key value when; ok (h2, true)))

  -- Remove: the heap, and whether the key was there.
  unfoldable pub remove : QuadHeap K V W → K → Run (QuadHeap K V W × Bool)
  remove h key = elim (lookup dec key h.indexes) [
    | none ↦ ok (h, false)
    | some i ↦ (do (h', _) ← remove_at h i; ok (h', true))
  ]
