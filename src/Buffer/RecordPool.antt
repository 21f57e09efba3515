-- ===== src/Buffer/RecordPool.antt =====
-- RecordPool of core/src/buffer/object_pool.rs. A pointer to a record is the index of its node, and
-- `usize::MAX` as an index is `none`. `alloc` and `free` are given as calls that nothing
-- interrupts, and as threads that take one atomic access at a time.
pub mod Stack
pub mod Calls
pub mod Steps
pub mod Races
mod Tests
use do_logger.Prelude.{
  ℕ, zero, suc, ◌+◌, ◌-◌, Bool, true, false, not, ◌&&◌, Option, none, some, List, [], ◌∷◌, ltb,
  ◌==◌, if◌then◌else◌, ◌%◌, ◌^◌,
}
use do_logger.Prelude.Words.{wrap_add64}
use do_logger.Record.Fields.{Record, new, reset}

-- The nodes by index, and the words beside them.
pub record RecordPool : Type 0 where
  pub capacity : ℕ
  pub records : ℕ → Record
  pub nexts : ℕ → Option ℕ
  pub head : Option ℕ
  pub alloc_count : ℕ
  pub free_count : ℕ

abbrev pub update : {A : Type 0} → (ℕ → A) → ℕ → A → ℕ → A
update f i a j = if i == j then a else f j

unfoldable pub fresh : ℕ → RecordPool
fresh capacity = record {
  capacity = capacity;
  records = λ i. new (i % 2 ^ 32);
  nexts = λ i. if ltb (i + 1) capacity then some (i + 1) else none;
  head = some 0;
  alloc_count = 0;
  free_count = 0;
}

-- A panic is `none`.
unfoldable pub new_pool : ℕ → Option RecordPool
new_pool capacity = if ltb 0 capacity then some (fresh capacity) else none

unfoldable pub alloc : RecordPool → RecordPool × Option ℕ
alloc p = elim p.head [
  | none ↦ (p, none)
  | some head ↦
      (record p { head = p.nexts head; alloc_count = wrap_add64 p.alloc_count 1 }, some head)
]

-- The record is reset before it is pushed. A panic is `none`.
unfoldable pub free : ℕ → RecordPool → Option RecordPool
free ptr p =
    let index = (p.records ptr).pool_index in
    if ltb index p.capacity
    then some (record p {
      records = update p.records index (reset (p.records index));
      nexts = update p.nexts index p.head;
      head = some index;
      free_count = wrap_add64 p.free_count 1;
    })
    else none

unfoldable pub available : RecordPool → ℕ
available p = p.capacity - (p.alloc_count - p.free_count)

-- Where a thread stands, with the locals that are live there.
pub data Pc : Type 0 where
  idle : Pc
  alloc_head : Pc
  alloc_next : (head : ℕ) → Pc
  alloc_claim : (head : ℕ) → (next : Option ℕ) → Pc
  free_reset : (ptr : ℕ) → Pc
  free_head : (index : ℕ) → Pc
  free_next : (index : ℕ) → (head : Option ℕ) → Pc
  free_claim : (index : ℕ) → (head : Option ℕ) → Pc

unfoldable pub same_index : Option ℕ → Option ℕ → Bool
same_index none none = true
same_index none (some j) = false
same_index (some i) none = false
same_index (some i) (some j) = i == j

-- What a thread does next to the pool, where it stands then, and what `alloc` returns, if it
-- returns.
pub record Turn : Type 0 where
  pub pool : RecordPool
  pub pc : Pc
  pub got : Option ℕ

abbrev pub goto : RecordPool → Pc → Turn
goto p pc = record { pool = p; pc = pc; got = none }

-- One atomic access. `weak` is a compare-exchange that fails for no reason; a thread that has
-- panicked is idle.
unfoldable pub step : Bool → RecordPool → Pc → Turn
unfolding same_index
step weak p idle = goto p idle
step weak p alloc_head = goto p (elim p.head [ none ↦ idle | some head ↦ alloc_next head ])
step weak p (alloc_next head) = goto p (alloc_claim head (p.nexts head))
step weak p (alloc_claim head next) =
    if same_index p.head (some head) && not weak
    then record {
      pool = record p { head = next; alloc_count = wrap_add64 p.alloc_count 1 };
      pc = idle;
      got = some head;
    }
    else goto p alloc_head
step weak p (free_reset ptr) =
    let index = (p.records ptr).pool_index in
    if ltb index p.capacity
    then goto (record p { records = update p.records index (reset (p.records index)) })
        (free_head index)
    else goto p idle
step weak p (free_head index) = goto p (free_next index p.head)
step weak p (free_next index head) =
    goto (record p { nexts = update p.nexts index head }) (free_claim index head)
step weak p (free_claim index head) =
    if same_index p.head head && not weak
    then goto (record p { head = some index; free_count = wrap_add64 p.free_count 1 }) idle
    else goto p (free_head index)
