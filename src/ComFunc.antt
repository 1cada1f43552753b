-- ===== src/ComFunc.antt =====
-- src/common/com_func.cpp: the helpers of namespace `hobotcommon`.
pub mod Base64
pub mod Age
pub mod Segment
pub mod Hash
