-- ===== src/Course.antt =====
-- Examples of the course that hold a small algorithm of their own: a counter in a mapped file
-- (P3/file_mmap.c), the loops over short writes and reads (P1/file_descriptors.c and
-- P1/pipe_example.c) with the descriptors of the first, and two processes over a semaphore
-- (P2/sem_create.c).
pub mod Counter
pub mod Transfer
pub mod Descriptors
pub mod Region
