-- ===== src/Util.antt =====
-- src/include/util.h and util.cpp: the sliding window and the split of strings.
pub mod Window
pub mod Split
