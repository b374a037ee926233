-- ===== src/Examples.antt =====
-- The theorems at concrete inputs.
mod Heap
mod Frames
mod Stores
mod Pager
mod Queues
mod Kernel
mod Semaphores
mod Ports
mod Processes
mod Pools
