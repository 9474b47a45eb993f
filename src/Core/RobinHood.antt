-- ===== src/Core/RobinHood.antt =====
-- src/core/robin_hood_index.cpp and include/pup/core/robin_hood_index.hpp: a hash index with linear
-- probing, where an entry far from its home takes the slot of one that is nearer. The arrays of `Meta`
-- and of values are one function from slots; `& mask` is `% capacity`, the capacity being a power of
-- two.
pub mod Table
mod Probes
mod Finds
mod Rebuilds
mod Room
pub mod Refines
use putup.Prelude.{
  ℕ, zero, suc, ◌+◌, ◌*◌, ◌/◌, ◌%◌, ◌^◌, Bool, true, false, not, ◌&&◌, Option, none, some, ltb, leb,
  ◌==◌, if◌then◌else◌, update,
}

-- `Meta` and the value of its slot; the hash 0 marks an empty slot
pub record Slot : Type 0 where
  pub hash : ℕ
  pub displacement : ℕ
  pub value : ℕ

abbrev pub empty_slot : Slot
empty_slot = record { hash = 0; displacement = 0; value = 0 }

abbrev pub SlotArray : Type 0
SlotArray = ℕ → Slot

pub record RobinHoodIndex : Type 0 where
  pub slots : SlotArray
  pub capacity : ℕ
  pub count : ℕ

unfoldable pub fix_hash : ℕ → ℕ
fix_hash h = if ltb h 2 then h + 2 else h

-- `(slot + 1) & mask`
abbrev pub next_slot : ℕ → ℕ → ℕ
next_slot capacity slot = (slot + 1) % capacity

-- `++disp` on a `uint16_t`
abbrev pub farther : Slot → Slot
farther c = record c { displacement = (c.displacement + 1) % 2 ^ 16 }

-- the loop of `probe_insert`; `c` is the entry that is carried
unfoldable pub probe_loop : ℕ → ℕ → Slot → ℕ → SlotArray → SlotArray
probe_loop capacity zero c slot slots = slots
probe_loop capacity (suc fuel) c slot slots =
    let s = slots slot in
    let swaps = ltb s.displacement c.displacement in
    let rest =
      probe_loop capacity fuel (farther (if swaps then s else c)) (next_slot capacity slot)
        (if swaps then update slots slot c else slots) in
    if s.hash == 0 then update slots slot c else rest

-- One turn for each slot is fuel enough when one is empty.
unfoldable pub probe_insert : ℕ → ℕ → ℕ → SlotArray → SlotArray
probe_insert capacity h value slots =
    probe_loop capacity capacity (record { hash = h; displacement = 0; value = value })
      (h % capacity) slots

-- the loop of `rebuild` over the first old slots
unfoldable pub reinsert : ℕ → SlotArray → ℕ → SlotArray
reinsert new_cap old zero = λ slot. empty_slot
reinsert new_cap old (suc i) =
    let before = reinsert new_cap old i in
    if leb 2 (old i).hash then probe_insert new_cap (old i).hash (old i).value before else before

unfoldable pub rebuild : ℕ → RobinHoodIndex → RobinHoodIndex
rebuild new_cap t = record t { slots = reinsert new_cap t.slots t.capacity; capacity = new_cap }

-- the table that `insert` writes in
unfoldable pub make_room : RobinHoodIndex → RobinHoodIndex
make_room t =
    if leb (t.capacity * 4 / 5) t.count
    then rebuild (if t.capacity == 0 then 16 else t.capacity * 2) t
    else t

unfoldable pub index_insert : ℕ → ℕ → RobinHoodIndex → RobinHoodIndex
index_insert hash value t =
    let t' = make_room t in
    record t' {
      slots = probe_insert t'.capacity (fix_hash hash) value t'.slots;
      count = t'.count + 1;
    }

unfoldable pub index_clear : RobinHoodIndex
index_clear = record { slots = λ slot. empty_slot; capacity = 0; count = 0 }

-- What a search gives: a value, `std::nullopt`, or nothing, where the fuel was not enough.
pub data Search : Type 0 where
  found : ℕ → Search
  missing : Search
  exhausted : Search

-- the loop of `find`
unfoldable pub find_loop : (ℕ → Bool) → ℕ → ℕ → ℕ → ℕ → ℕ → SlotArray → Search
find_loop matches capacity zero h slot disp slots = exhausted
find_loop matches capacity (suc fuel) h slot disp slots =
    let s = slots slot in
    let rest =
      find_loop matches capacity fuel h (next_slot capacity slot) ((disp + 1) % 2 ^ 16) slots in
    if s.hash == 0
    then missing
    else if ltb s.displacement disp
    then missing
    else if s.hash == h && matches s.value
    then found s.value
    else rest

-- One turn for each slot is fuel enough here too.
unfoldable pub index_find : ℕ → (ℕ → Bool) → RobinHoodIndex → Search
index_find hash matches t =
    let h = fix_hash hash in
    if t.capacity == 0
    then missing
    else find_loop matches t.capacity t.capacity h (h % t.capacity) 0 t.slots
