-- ===== src/Dns.antt =====
-- 04-dns_query/main.c: a DNS query for the address of a name, and the reading of the answer.
pub mod Types
pub mod Name
pub mod Query
pub mod Skip
pub mod Header
pub mod Response
pub mod Program
mod Tests
