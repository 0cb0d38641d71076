-- ===== src/Delay.antt =====
-- DelayCollection.h: the bounded histories of measured delays that each upstream server keeps.
-- `boost::circular_buffer` is not code of this repository: it is the parameter `CircularBuffer`.
pub mod Buffer
pub mod History
pub mod Collect
pub mod Bounded
