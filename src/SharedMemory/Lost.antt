-- ===== src/SharedMemory/Lost.antt =====
-- `push` of 10/main.c raises the third semaphore before the parent has written its array.
