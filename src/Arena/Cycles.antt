-- ===== src/Arena/Cycles.antt =====
-- 01-arena_allocator/main.c: fill the arena, count the overlapping pairs, reset, three times over.
pub mod Defs
pub mod Laws
