-- ===== src/Arena.antt =====
-- 01-arena_allocator/arena.c and arena.h: a bump allocator over one region of memory.
-- `size_t` and `uintptr_t` are 64 bits wide and wrap.
pub mod Align
pub mod Bounds
pub mod Overflow
pub mod Cycles
pub mod Reset
mod Tests
use swe_daily_challenge.Base.{
  ℕ, ◌+◌, ◌-◌, ◌%◌, ◌^◌, bit_and, Option, none, some, ltb, if◌then◌else◌,
}

-- `Arena`. The C struct lives in the first bytes of the region itself.
pub record Arena : Type 0 where
  pub base : ℕ
  pub capacity : ℕ
  pub offset : ℕ

-- sizeof(Arena): a pointer and two `size_t`
abbrev pub sizeof_arena : ℕ
sizeof_arena = 24

abbrev pub add_size : ℕ → ℕ → ℕ
add_size a b = (a + b) % 2 ^ 64

abbrev pub sub_size : ℕ → ℕ → ℕ
sub_size a b = (a + 2 ^ 64 - b) % 2 ^ 64

-- `~x` on 64 bits
abbrev pub bit_not : ℕ → ℕ
bit_not x = 2 ^ 64 - 1 - x

-- `virtual_alloc` is VirtualAlloc of the Windows API: the base of the new region, or NULL.
unfoldable pub arena_create : (virtual_alloc : ℕ → Option ℕ) → ℕ → Option Arena
arena_create virtual_alloc capacity = elim (virtual_alloc capacity) [
  | none ↦ none
  | some region ↦ some (record { base = region; capacity = capacity; offset = sizeof_arena })
]

-- `(bump + align - 1) & ~(align - 1)`
unfoldable pub align_up : ℕ → ℕ → ℕ
align_up bump align = bit_and (sub_size (add_size bump align) 1) (bit_not (sub_size align 1))

-- The pointer returned, with the arena as the call leaves it.
unfoldable pub arena_alloc : Arena → ℕ → ℕ → Option ℕ × Arena
arena_alloc a size align =
    let bump = align_up (add_size a.base a.offset) align in
    let new_offset = add_size (sub_size bump a.base) size in
    if ltb a.capacity new_offset then (none, a) else (some bump, record a { offset = new_offset })

unfoldable pub arena_reset : Arena → Arena
arena_reset a = record a { offset = sizeof_arena }

-- `virtual_free` is VirtualFree with MEM_RELEASE, on the state of the address space. The last line
-- of the C function sets its own copy of the pointer, which nobody reads.
unfoldable pub arena_destroy :
    {Space : Type 0} → (virtual_free : ℕ → Space → Space) → Arena → Space → Space
arena_destroy virtual_free a space = virtual_free a.base space
